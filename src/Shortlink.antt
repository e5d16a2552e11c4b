-- ===== src/Shortlink.antt =====
-- src/proxy/shortlink_packer.cpp: an HTTP request around the bytes of a task. The builder of the mars
-- library (libs/mars/include/mars/comm/http.h declares it) and `snprintf` are an interface.
pub mod Fields
pub mod Pack
use Prim.Native.String.{String}
use mars_wrapper.Prelude.{
  ℕ, suc, ◌%◌, ◌^◌, ◌≡◌, List, [], ◌∷◌, length, Bool, true, false, Option, none, some,
  if◌then◌else◌, ◌==◌,
}
use mars_wrapper.Prelude.Int.{ℤ}
use mars_wrapper.Buffer.{AutoBuffer, IsFresh}

pub data Method : Type 0 where
  unknown_method : Method
  get : Method
  post : Method
  options : Method
  head : Method
  put : Method
  delete : Method
  trace : Method
  connect : Method
  max_method : Method

pub data Version : Type 0 where
  version_0_9 : Version
  version_1_0 : Version
  version_1_1 : Version
  version_2_0 : Version
  version_unknown : Version

-- TCsMode
pub data Mode : Type 0 where
  request : Mode
  respond : Mode

abbrev pub Field : Type 0
Field = List ℕ × List ℕ

pub record ShortPacker (Buffer : Type 0) : Type 0 where
  pub create_tracker : ℕ → ℕ × ℕ
  pub pack : List ℕ → List Field → Buffer → Buffer → Buffer

-- The fields that HeaderFields makes; a content length is an int.
pub data MadeField : Type 0 where
  make_content_length : ℤ → MadeField
  make_transfer_encoding_chunked : MadeField
  make_connection_close : MadeField
  make_connection_keepalive : MadeField
  make_accept_all : MadeField
  make_accept_encoding_defalte : MadeField
  make_accept_encoding_gzip : MadeField
  make_cache_control_no_cache : MadeField
  make_content_type_octet_stream : MadeField

-- The names that HeaderFields has.
pub data HeaderName : Type 0 where
  string_host : HeaderName
  string_accept : HeaderName
  string_user_agent : HeaderName
  string_cache_control : HeaderName
  string_connection : HeaderName
  string_proxy_connection : HeaderName
  string_proxy_authorization : HeaderName
  string_content_type : HeaderName
  string_content_length : HeaderName
  string_transfer_encoding : HeaderName
  string_content_encoding : HeaderName
  string_accept_encoding : HeaderName
  string_content_range : HeaderName
  string_micro_messenger : HeaderName
  string_range : HeaderName
  string_location : HeaderName
  string_referer : HeaderName

-- http::Builder: its constructor, `Method`, `Version`, `Url`, `HeaderFiled` and `HeaderToBuffer`, the
-- fields and names of HeaderFields, and "%u" of snprintf. `method_of`, `version_of` and `url_of` say
-- what a builder was told, and `text` is what it writes. The fields are a map by their names:
-- `same_name` says that http::less puts neither of two names before the other, and `field_of` is the
-- value under a name. The laws do not say what becomes of a second value under a name that is there.
pub record Http (Builder Buffer : Type 0) (ops : AutoBuffer Buffer) : Type 0 where
  pub new_builder : Mode → Builder
  pub set_method : Method → Builder → Builder
  pub set_version : Version → Builder → Builder
  pub set_url : List ℕ → Builder → Builder
  pub header_field : List ℕ → List ℕ → Builder → Builder
  pub header_to_buffer : Builder → Buffer → Buffer
  pub made : MadeField → Field
  pub name_of : HeaderName → List ℕ
  pub print_unsigned : ℕ → List ℕ
  pub method_of : Builder → Option Method
  pub version_of : Builder → Option Version
  pub url_of : Builder → Option (List ℕ)
  pub same_name : List ℕ → List ℕ → Bool
  pub field_of : Builder → List ℕ → Option (List ℕ)
  pub text : Builder → List ℕ
  pub same_name-right : (n k m : List ℕ) → same_name n k ≡ true → same_name m k ≡ same_name m n
  pub field_of-new_builder : (m : Mode) (k : List ℕ) → field_of (new_builder m) k ≡ none
  pub method_of-set_method : (m : Method) (b : Builder) → method_of (set_method m b) ≡ some m
  pub field_of-set_method :
      (m : Method) (b : Builder) (k : List ℕ) → field_of (set_method m b) k ≡ field_of b k
  pub method_of-set_version :
      (v : Version) (b : Builder) → method_of (set_version v b) ≡ method_of b
  pub version_of-set_version : (v : Version) (b : Builder) → version_of (set_version v b) ≡ some v
  pub field_of-set_version :
      (v : Version) (b : Builder) (k : List ℕ) → field_of (set_version v b) k ≡ field_of b k
  pub method_of-set_url : (u : List ℕ) (b : Builder) → method_of (set_url u b) ≡ method_of b
  pub version_of-set_url : (u : List ℕ) (b : Builder) → version_of (set_url u b) ≡ version_of b
  pub url_of-set_url : (u : List ℕ) (b : Builder) → url_of (set_url u b) ≡ some u
  pub field_of-set_url :
      (u : List ℕ) (b : Builder) (k : List ℕ) → field_of (set_url u b) k ≡ field_of b k
  pub method_of-header_field :
      (n v : List ℕ) (b : Builder) → method_of (header_field n v b) ≡ method_of b
  pub version_of-header_field :
      (n v : List ℕ) (b : Builder) → version_of (header_field n v b) ≡ version_of b
  pub url_of-header_field : (n v : List ℕ) (b : Builder) → url_of (header_field n v b) ≡ url_of b
  pub field_of-header_field :
      (n v : List ℕ) (b : Builder) (k : List ℕ)
      → same_name n k ≡ true
      → field_of b k ≡ none
      → field_of (header_field n v b) k ≡ some v
  pub field_of-other_field :
      (n v : List ℕ) (b : Builder) (k : List ℕ)
      → same_name n k ≡ false
      → field_of (header_field n v b) k ≡ field_of b k
  pub bytes-header_to_buffer :
      (b : Builder) (out : Buffer) → IsFresh ops out → ops.bytes (header_to_buffer b out) ≡ text b
  pub pos-header_to_buffer :
      (b : Builder) (out : Buffer)
      → IsFresh ops out
      → ops.pos (header_to_buffer b out) ≡ length (text b)

-- shortlink_tracker::Create makes one more tracker than there were.
unfoldable pub create_shortlink_tracker : ℕ → ℕ × ℕ
create_shortlink_tracker trackers = (trackers, suc trackers)

-- A text given as `const char *` ends before its first zero.
unfoldable pub c_str : List ℕ → List ℕ
c_str [] = []
c_str (c ∷ s) = let rest = c_str s in if c == 0 then [] else c ∷ rest

-- `find` of a text of one character, other than npos.
unfoldable pub has_char : ℕ → List ℕ → Bool
has_char c [] = false
has_char c (x ∷ s) = let rest = has_char c s in if x == c then true else rest

abbrev pub is_post : List ℕ → Bool
is_post url = elim (has_char b'?' url) [ true ↦ false | false ↦ true ]

-- "Content-Type" and "application/json".
abbrev pub content_type : List ℕ
content_type =
    b'C' ∷ b'o' ∷ b'n' ∷ b't' ∷ b'e' ∷ b'n' ∷ b't' ∷ b'-' ∷ b'T' ∷ b'y' ∷ b'p' ∷ b'e' ∷ []

abbrev pub application_json : List ℕ
application_json =
    b'a' ∷ b'p' ∷ b'p' ∷ b'l' ∷ b'i' ∷ b'c' ∷ b'a' ∷ b't' ∷ b'i' ∷ b'o' ∷ b'n' ∷ b'/' ∷ b'j' ∷ b's'
    ∷ b'o' ∷ b'n' ∷ []

module _ {Builder Buffer : Type 0} {ops : AutoBuffer Buffer} (http : Http Builder Buffer ops) where
  abbrev pub add : Field → Builder → Builder
  add (name, value) b = http.header_field name value b

  -- The loop over the caller's map, in the order of its keys.
  unfoldable pub add_headers : List Field → Builder → Builder
  add_headers [] b = b
  add_headers ((name, value) ∷ rest) b =
      add_headers rest (http.header_field (c_str name) (c_str value) b)

  abbrev pub started : List ℕ → Builder
  started url =
      let b =
        http.set_version version_1_1
          (http.set_method (if is_post url then post else get) (http.new_builder request)) in
      add (http.made make_connection_close) (
        add (http.made make_cache_control_no_cache) (
          http.header_field (http.name_of string_user_agent) (http.name_of string_micro_messenger)
            (add (http.made make_accept_all) b)))

  unfoldable pub shortlink_pack : List ℕ → List Field → Buffer → Buffer → Buffer
  shortlink_pack url headers body out =
      let b = http.set_url url (add_headers headers (started url)) in
      if is_post url
      then (let typed = http.header_field content_type application_json b in
          let len_str = http.print_unsigned (length (ops.bytes body) % 2 ^ 32) in
          let sized = http.header_field (http.name_of string_content_length) len_str typed in
          ops.write (http.header_to_buffer sized out) (ops.bytes body))
      else http.header_to_buffer b out

  -- The function pointers that the mars library is linked with.
  abbrev pub shortlink_packer : ShortPacker Buffer
  shortlink_packer = record { create_tracker = create_shortlink_tracker; pack = shortlink_pack }
