-- ===== src/Shortlink/Fields.antt =====
-- The fields that the HTTP builder was told, as a map by their names.
use mars_wrapper.Prelude.{
  ℕ, ◌≡◌, refl, ◌∙◌, List, [], ◌∷◌, Option, none, some, true, if◌then◌else◌, Bool-cases, inl, inr,
}
use mars_wrapper.Buffer.{AutoBuffer}
use mars_wrapper.Shortlink.{Http, Field}

module _ {Builder Buffer : Type 0} {ops : AutoBuffer Buffer} (http : Http Builder Buffer ops) where
  -- The value of a field in a list of fields.
  unfoldable pub looked_up : List Field → List ℕ → Option (List ℕ)
  looked_up [] k = none
  looked_up ((name, value) ∷ rest) k =
      let later = looked_up rest k in if http.same_name name k then some value else later

  -- No two fields have the same name.
  unfoldable pub Apart : List Field → Type 0
  Apart [] = Unit
  Apart ((name, value) ∷ rest) = (looked_up rest name ≡ none) × Apart rest

  looked_up_same :
      (fields : List Field) {n k : List ℕ}
      → http.same_name n k ≡ true
      → looked_up fields k ≡ looked_up fields n
  unfolding looked_up
  looked_up_same [] same = refl
  looked_up_same ((name, value) ∷ rest) {n} {k} same =
      rw (http.same_name-right n k name same, looked_up_same rest same) refl

  -- A field of a new name is added to those that are there.
  pub field_added :
      {b : Builder} (name value : List ℕ) (fields : List Field) (k : List ℕ)
      → ((k : List ℕ) → http.field_of b k ≡ looked_up fields k)
      → looked_up fields name ≡ none
      → http.field_of (http.header_field name value b) k ≡ looked_up ((name, value) ∷ fields) k
  unfolding looked_up
  field_added {b} name value fields k has new = elim (Bool-cases (http.same_name name k)) [
    | inl same ↦
        http.field_of-header_field name value b k same (has k ∙ looked_up_same fields same ∙ new)
        ∙ rw same refl
    | inr differs ↦ http.field_of-other_field name value b k differs ∙ has k ∙ rw differs refl
  ]
