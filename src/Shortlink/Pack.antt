-- ===== src/Shortlink/Pack.antt =====
-- The request that `shortlink_pack` writes.
use mars_wrapper.Prelude.{
  Lacks, ℕ, ◌+◌, ◌%◌, ◌^◌, ◌≡◌, refl, ap, ◌∙◌, ◌⊎◌, inl, inr, List, [], ◌∷◌, ◌++◌, length, true,
  false, some, arith, append-nil, take_all, drop_all, ℕ_discrete,
}
use mars_wrapper.Buffer.{AutoBuffer, IsFresh}
use mars_wrapper.Shortlink.Fields.{looked_up, Apart, field_added}
use mars_wrapper.Shortlink.{
  Http, Method, get, post, version_1_1, request, make_connection_close, make_cache_control_no_cache,
  make_accept_all, string_user_agent, string_micro_messenger, string_content_length, Field, c_str,
  has_char, is_post, content_type, application_json, add, add_headers, shortlink_pack,
}

has_char_cases :
    (c : ℕ) (s : List ℕ)
    → ((has_char c s ≡ false) × Lacks c s)
      ⊎ ((a : List ℕ) × (b : List ℕ) × (has_char c s ≡ true) × (s ≡ a ++ (c ∷ b)))
unfolding has_char
has_char_cases c [] = inl (refl, tt)
has_char_cases c (x ∷ s) = elim (ℕ_discrete x c) [
  | yes same ↦ inr ([], s, ground arith, ap (λ y. y ∷ s) same)
  | no other ↦ elim (has_char_cases c s) [
    | inl (missing, lacks) ↦ inl (ground arith, (other, lacks))
    | inr (a, b, found, split) ↦ inr (x ∷ a, b, ground arith, ap (◌∷◌ x) split)
  ]
]

-- The caller's headers, after the ones told before, the newest first.
abbrev pub told : List Field → List Field → List Field
told [] fields = fields
told ((name, value) ∷ rest) fields = told rest ((c_str name, c_str value) ∷ fields)

module _ {Builder Buffer : Type 0} {ops : AutoBuffer Buffer} (http : Http Builder Buffer ops) where
  abbrev pub fixed : List Field
  fixed =
      (http.made make_connection_close)
      ∷ (http.made make_cache_control_no_cache)
      ∷ ((http.name_of string_user_agent), (http.name_of string_micro_messenger))
      ∷ (http.made make_accept_all)
      ∷ []

  -- What a builder was told.
  record Told (b : Builder) (m : Method) (fields : List Field) : Type 0 where
    by_method : http.method_of b ≡ some m
    version : http.version_of b ≡ some version_1_1
    by_fields : Apart http fields → (k : List ℕ) → http.field_of b k ≡ looked_up http fields k

  header_field-Told :
      {b : Builder} {m : Method} {fields : List Field} (name value : List ℕ)
      → Told b m fields
      → Told (http.header_field name value b) m ((name, value) ∷ fields)
  unfolding Apart
  header_field-Told {b} {m} {fields} name value t = record {
    by_method = http.method_of-header_field name value b ∙ t.by_method;
    version = http.version_of-header_field name value b ∙ t.version;
    by_fields = λ apart k. field_added http name value fields k (t.by_fields apart.1) apart.0;
  }

  add_headers-Told :
      (headers : List Field) {b : Builder} {m : Method} {fields : List Field}
      → Told b m fields
      → Told (add_headers http headers b) m (told headers fields)
  unfolding add_headers
  add_headers-Told [] t = t
  add_headers-Told ((name, value) ∷ rest) t =
      add_headers-Told rest (header_field-Told (c_str name) (c_str value) t)

  first : Method → Builder
  first m = http.set_version version_1_1 (http.set_method m (http.new_builder request))

  first-Told : (m : Method) → Told (first m) m []
  unfolding first looked_up
  first-Told m = record {
    by_method =
        http.method_of-set_version _ _ ∙ http.method_of-set_method m (http.new_builder request);
    version = http.version_of-set_version _ _;
    by_fields = λ _ k.
        http.field_of-set_version _ _ k
        ∙ http.field_of-set_method m (http.new_builder request) k
        ∙ http.field_of-new_builder request k;
  }

  set_url-Told :
      (url : List ℕ) {b : Builder} {m : Method} {fields : List Field}
      → Told b m fields
      → Told (http.set_url url b) m fields
  set_url-Told url {b} t = record {
    by_method = http.method_of-set_url url b ∙ t.by_method;
    version = http.version_of-set_url url b ∙ t.version;
    by_fields = λ apart k. http.field_of-set_url url b k ∙ t.by_fields apart k;
  }

  -- The builder before the two fields of a POST.
  built : Method → List ℕ → List Field → Builder
  built m url headers = http.set_url url (
      add_headers http headers (
        add http (http.made make_connection_close) (
          add http (http.made make_cache_control_no_cache) (
            http.header_field (http.name_of string_user_agent) (http.name_of string_micro_messenger)
              (add http (http.made make_accept_all) (first m))))))

  built-Told :
      (m : Method) (url : List ℕ) (headers : List Field)
      → Told (built m url headers) m (told headers fixed)
  unfolding built
  built-Told m url headers = set_url-Told url (
      add_headers-Told headers (
        header_field-Told _ _
          (header_field-Told _ _ (header_field-Told _ _ (header_field-Told _ _ (first-Told m))))))

  post_builder : List ℕ → List Field → ℕ → Builder
  post_builder url headers n =
      http.header_field (http.name_of string_content_length) (http.print_unsigned (n % 2 ^ 32))
        (http.header_field content_type application_json (built post url headers))

  module _ (url : List ℕ) (headers : List Field) (body out : Buffer) (fresh : IsFresh ops out) where
    -- A write at the end of what is there.
    appended :
        (c : Buffer) (head xs : List ℕ)
        → ops.bytes c ≡ head
        → ops.pos c ≡ length head
        → ops.bytes (ops.write c xs) ≡ head ++ xs
    appended c head xs same at_end =
        ops.bytes-write c xs (rw (same, at_end) (omega arith))
        ∙ rw
            (
              same,
              at_end,
              take_all head refl,
              drop_all head {n = length head + length xs} (omega arith),
            )
            (ap (◌++◌ head) (append-nil xs))

    posted :
        has_char b'?' url ≡ false
        → shortlink_pack http url headers body out
          ≡ ops.write
              (http.header_to_buffer (post_builder url headers (length (ops.bytes body))) out)
              (ops.bytes body)
    unfolding shortlink_pack post_builder built first
    posted missing = rw (missing, is_post) refl

    got :
        has_char b'?' url ≡ true
        → shortlink_pack http url headers body out
          ≡ http.header_to_buffer (built get url headers) out
    unfolding shortlink_pack built first
    got found = rw (found, is_post) refl

  -- The fields of a POST whose body has `n` bytes.
  abbrev pub fields_posted : List Field → ℕ → List Field
  fields_posted headers n =
      ((http.name_of string_content_length), http.print_unsigned (n % 2 ^ 32))
      ∷ (content_type, application_json)
      ∷ told headers fixed

  -- The request for a task, in a buffer that was fresh, when no two of the names are the same of the
  -- fixed fields, the caller's headers, the content type and the content length. If the address has no
  -- '?', it is a POST of the address by HTTP/1.1; each fixed field, each of the caller's headers, the
  -- content type and the length of the body modulo 2 ^ 32 has its value in it, and no other name has
  -- one; and the body follows its header. If the address has a '?', it is a GET, with the fixed fields
  -- and the caller's headers only, and the body is left out.
  pub shortlink_pack_lem :
      (url : List ℕ) (headers : List Field) (body out : Buffer)
      → IsFresh ops out
      → Apart http (fields_posted headers (length (ops.bytes body)))
      → (b : Builder) × (http.version_of b ≡ some version_1_1)
        × (http.url_of b ≡ some url)
        × ((Lacks b'?' url
              × (http.method_of b ≡ some post)
              × ((k : List ℕ)
                  → http.field_of b k
                    ≡ looked_up http (fields_posted headers (length (ops.bytes body))) k)
              × (ops.bytes (shortlink_pack http url headers body out)
                  ≡ http.text b ++ ops.bytes body))
            ⊎ ((before : List ℕ) × (after : List ℕ) × (url ≡ before ++ (b'?' ∷ after))
                × (http.method_of b ≡ some get)
                × ((k : List ℕ) → http.field_of b k ≡ looked_up http (told headers fixed) k)
                × (ops.bytes (shortlink_pack http url headers body out) ≡ http.text b)))
  unfolding post_builder built Apart
  shortlink_pack_lem url headers body out fresh apart = elim (has_char_cases b'?' url) [
    | inl (missing, lacks) ↦
        let n = length (ops.bytes body) in
        let t =
          header_field-Told (http.name_of string_content_length) (http.print_unsigned (n % 2 ^ 32))
            (header_field-Told content_type application_json (built-Told post url headers)) in
        (
          post_builder url headers n,
          t.version,
          http.url_of-header_field _ _ _
              ∙ http.url_of-header_field _ _ _
              ∙ http.url_of-set_url url _,
          inl (
            lacks,
            t.by_method,
            t.by_fields apart,
            ap ops.bytes (posted url headers body out fresh missing)
                ∙ appended url headers body out fresh
                    (http.header_to_buffer (post_builder url headers n) out) _ (ops.bytes body)
                    (http.bytes-header_to_buffer _ out fresh)
                    (http.pos-header_to_buffer _ out fresh),
          ),
        )
    | inr (before, after, found, split) ↦
        let t = built-Told get url headers in
        (
          built get url headers,
          t.version,
          http.url_of-set_url url _,
          inr (
            before,
            after,
            split,
            t.by_method,
            t.by_fields (apart.1.1),
            ap ops.bytes (got url headers body out fresh found)
                ∙ http.bytes-header_to_buffer _ out fresh,
          ),
        )
  ]
