-- ===== src/Examples/Http.antt =====
-- The packer for short links on a concrete builder, which is what it was told, and the demo's client.
use mars_wrapper.Prelude.{
  ℕ, ◌+◌, ◌/◌, ◌%◌, ◌≡◌, refl, sym, ap, ◌∙◌, ◌⊎◌, Bool, true, false, ℕ_discrete, ◌==◌,
  if◌then◌else◌, List, [], ◌∷◌, ◌++◌, length, Option, none, some, arith, Lacks,
}
use mars_wrapper.Buffer.{IsFresh, write-IsFresh}
use mars_wrapper.Platform.{
  ListBuffer, little_endian, list_buffer, empty_buffer, empty_buffer-IsFresh,
}
use mars_wrapper.Shortlink.{
  Http, HeaderName, MadeField, string_user_agent, string_micro_messenger, string_content_length,
  make_accept_all, make_cache_control_no_cache, make_connection_close, Method, Version, version_1_1,
  c_str, get, post, Field, shortlink_pack,
}
use mars_wrapper.Shortlink.Fields.{looked_up, Apart}
use mars_wrapper.Shortlink.Pack.{told, fixed, fields_posted, shortlink_pack_lem}

record Told : Type 0 where
  method : Option Method
  version : Option Version
  url : Option (List ℕ)
  fields : List Field

-- The address and the names of the fields, one after another.
abbrev names : List Field → List ℕ
names [] = []
names ((name, value) ∷ rest) = name ++ names rest

abbrev told_text : Told → List ℕ
told_text b = names b.fields

abbrev named : ℕ → Field
named c = (c ∷ [], c ∷ [])

written-pos :
    (b : Told) (out : ListBuffer)
    → IsFresh list_buffer out
    → list_buffer.pos (list_buffer.write out (told_text b)) ≡ length (told_text b)
written-pos b out fresh = omega (arith, list_buffer.pos-write out (told_text b), fresh.at_start)

abbrev short_name : HeaderName → List ℕ
short_name string_user_agent = b'U' ∷ []
short_name string_micro_messenger = b'M' ∷ []
short_name string_content_length = b'L' ∷ []
short_name _ = b'-' ∷ []

abbrev made_field : MadeField → Field
made_field make_accept_all = named b'A'
made_field make_cache_control_no_cache = named b'N'
made_field make_connection_close = named b'C'
made_field _ = named b'-'

same_text : List ℕ → List ℕ → Bool
same_text [] [] = true
same_text [] (d ∷ ds) = false
same_text (c ∷ cs) [] = false
same_text (c ∷ cs) (d ∷ ds) = let rest = same_text cs ds in if c == d then rest else false

same_text_lem : (cs ds : List ℕ) → same_text cs ds ≡ true → cs ≡ ds
unfolding same_text
same_text_lem [] [] same = refl
same_text_lem [] (d ∷ ds) same = absurd (cc same)
same_text_lem (c ∷ cs) [] same = absurd (cc same)
same_text_lem (c ∷ cs) (d ∷ ds) same = elim (ℕ_discrete c d) [
  | yes first ↦
      ap (λ x. x ∷ cs) first ∙ ap (◌∷◌ d) (same_text_lem cs ds (ground (arith, first, same)))
  | no other ↦ absurd (ground (arith, other, same))
]

same_text-right : (n k m : List ℕ) → same_text n k ≡ true → same_text m k ≡ same_text m n
same_text-right n k m same = ap (same_text m) (sym (same_text_lem n k same))

value_of : List Field → List ℕ → Option (List ℕ)
value_of [] k = none
value_of ((name, value) ∷ rest) k =
    let later = value_of rest k in if same_text name k then some value else later

value_of-none : (k : List ℕ) → value_of [] k ≡ none
unfolding value_of
value_of-none k = refl

value_of_new :
    (fields : List Field) (n v k : List ℕ)
    → same_text n k ≡ true
    → value_of ((n, v) ∷ fields) k ≡ some v
unfolding value_of
value_of_new fields n v k same = rw same refl

value_of_other :
    (fields : List Field) (n v k : List ℕ)
    → same_text n k ≡ false
    → value_of ((n, v) ∷ fields) k ≡ value_of fields k
unfolding value_of
value_of_other fields n v k differs = rw differs refl

abbrev told_http : Http Told ListBuffer list_buffer
told_http = record {
  new_builder = λ mode. record { method = none; version = none; url = none; fields = [] };
  set_method = λ m b. record b { method = some m };
  set_version = λ v b. record b { version = some v };
  set_url = λ u b. record b { url = some u };
  header_field = λ n v b. record b { fields = (n, v) ∷ b.fields };
  header_to_buffer = λ b out. list_buffer.write out (told_text b);
  made = made_field;
  name_of = short_name;
  print_unsigned = λ n. (b'0' + n / 10 % 10) ∷ (b'0' + n % 10) ∷ [];
  method_of = λ b. b.method;
  version_of = λ b. b.version;
  url_of = λ b. b.url;
  same_name = same_text;
  field_of = λ b k. value_of b.fields k;
  same_name-right = same_text-right;
  text = told_text;
  method_of-set_method = λ m b. refl;
  method_of-set_version = λ v b. refl;
  version_of-set_version = λ v b. refl;
  method_of-set_url = λ u b. refl;
  version_of-set_url = λ u b. refl;
  url_of-set_url = λ u b. refl;
  method_of-header_field = λ n v b. refl;
  version_of-header_field = λ n v b. refl;
  url_of-header_field = λ n v b. refl;
  field_of-new_builder = λ m k. value_of-none k;
  field_of-set_method = λ m b k. refl;
  field_of-set_version = λ v b k. refl;
  field_of-set_url = λ u b k. refl;
  field_of-header_field = λ n v b k same new. value_of_new b.fields n v k same;
  field_of-other_field = λ n v b k differs. value_of_other b.fields n v k differs;
  bytes-header_to_buffer = λ b out fresh. write-IsFresh list_buffer out (told_text b) fresh;
  pos-header_to_buffer = written-pos;
}

abbrev address : List ℕ
address = b'/' ∷ b'a' ∷ []

abbrev body : ListBuffer
body = record { content = b'{' ∷ b'}' ∷ []; at = 0 }

abbrev headers : List Field
headers = (b'x' ∷ [], b'y' ∷ []) ∷ []

names-Apart : Apart told_http (fields_posted told_http headers 2)
unfolding Apart looked_up same_text c_str
names-Apart = (refl, (refl, (refl, (refl, (refl, (refl, (refl, tt)))))))

shortlink_pack_lem_example :
    (b : Told) × (b.version ≡ some version_1_1)
    × (b.url ≡ some address)
    × ((Lacks b'?' address
          × (b.method ≡ some post)
          × ((k : List ℕ)
              → told_http.field_of b k ≡ looked_up told_http (fields_posted told_http headers 2) k)
          × (list_buffer.bytes (shortlink_pack told_http address headers body empty_buffer)
              ≡ told_text b ++ list_buffer.bytes body))
        ⊎ ((before : List ℕ) × (after : List ℕ) × (address ≡ before ++ (b'?' ∷ after))
            × (b.method ≡ some get)
            × ((k : List ℕ)
                → told_http.field_of b k ≡ looked_up told_http (told headers (fixed told_http)) k)
            × (list_buffer.bytes (shortlink_pack told_http address headers body empty_buffer)
                ≡ told_text b)))
unfolding list_buffer
shortlink_pack_lem_example =
    shortlink_pack_lem told_http address headers body empty_buffer empty_buffer-IsFresh names-Apart
