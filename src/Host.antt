-- ===== src/Host.antt =====
-- The platform that the program is compiled for, as an interface: how a uint32_t lies in memory,
-- the width of size_t, what `malloc` hands out, `htonl` of the socket library, and the constructor of
-- the mars library's tasks, which is in its binary.
use mars_wrapper.Prelude.{ℕ, ◌/◌, ◌%◌, ◌^◌, ◌<◌, ◌≡◌, ◌⊎◌, List, [], ◌∷◌, length}
use mars_wrapper.Task.{Task}

-- The four bytes of `n`, the most significant first: the order of the network.
abbrev pub network_bytes : ℕ → List ℕ
network_bytes n = n / 2 ^ 24 % 256 ∷ n / 2 ^ 16 % 256 ∷ n / 2 ^ 8 % 256 ∷ n % 256 ∷ []

pub record Host : Type 0 where
  -- The bytes of a uint32_t object, lowest address first, and the value that four bytes stand for.
  pub bytes32 : ℕ → List ℕ
  pub value32 : List ℕ → ℕ
  pub htonl : ℕ → ℕ
  -- size_t has the values below `size_mod`.
  pub size_mod : ℕ
  -- The bytes that a fresh block holds, by its address and its size: they are indeterminate.
  pub malloc : ℕ → ℕ → List ℕ
  -- What `Task()` of the mars library sets.
  pub default_task : Task
  pub length-bytes32 : (n : ℕ) → length (bytes32 n) ≡ 4
  pub value32-bytes32 : (n : ℕ) → n < 2 ^ 32 → value32 (bytes32 n) ≡ n
  pub value32-lt : (bs : List ℕ) → value32 bs < 2 ^ 32
  pub bytes32-htonl : (n : ℕ) → n < 2 ^ 32 → bytes32 (htonl n) ≡ network_bytes n
  pub size_mod_cases : (size_mod ≡ 2 ^ 32) ⊎ (size_mod ≡ 2 ^ 64)
  pub length-malloc : (a n : ℕ) → length (malloc a n) ≡ n
