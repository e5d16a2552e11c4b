-- ===== src/Platform.antt =====
-- A concrete platform and a concrete buffer, on which the examples run: a 64-bit machine that
-- stores the low byte first, and a buffer that is a list with a position.
use mars_wrapper.Prelude.{
  ℕ, ◌+◌, ◌-◌, ◌*◌, ◌/◌, ◌%◌, ◌^◌, ◌<◌, ◌≡◌, refl, inr, List, [], ◌∷◌, ◌++◌, length, take, drop,
  replicate, length-replicate, length-append, arith, max, take-append,
}
use mars_wrapper.Prelude.{true, false, none}
use mars_wrapper.Prelude.Int.{pos, negsuc}
use mars_wrapper.Task.{Task}
use mars_wrapper.Host.{Host, network_bytes}
use mars_wrapper.Buffer.{AutoBuffer, IsFresh}

-- The low byte first.
unfoldable pub low_first : ℕ → List ℕ
low_first n = n % 256 ∷ n / 2 ^ 8 % 256 ∷ n / 2 ^ 16 % 256 ∷ n / 2 ^ 24 % 256 ∷ []

unfoldable pub value_of : List ℕ → ℕ
value_of (a ∷ b ∷ c ∷ d ∷ []) = (a + b * 2 ^ 8 + c * 2 ^ 16 + d * 2 ^ 24) % 2 ^ 32
value_of _ = 0

unfoldable pub swap_bytes : ℕ → ℕ
swap_bytes n =
    n % 256 * 2 ^ 24 + n / 2 ^ 8 % 256 * 2 ^ 16 + n / 2 ^ 16 % 256 * 2 ^ 8 + n / 2 ^ 24 % 256

pub value_of-low_first : (n : ℕ) → n < 2 ^ 32 → value_of (low_first n) ≡ n
unfolding value_of low_first
value_of-low_first n h = omega arith

pub value_of-lt : (bs : List ℕ) → value_of bs < 2 ^ 32
unfolding value_of
value_of-lt [] = omega arith
value_of-lt (a ∷ []) = omega arith
value_of-lt (a ∷ b ∷ []) = omega arith
value_of-lt (a ∷ b ∷ c ∷ []) = omega arith
value_of-lt (a ∷ b ∷ c ∷ d ∷ []) = omega arith
value_of-lt (a ∷ b ∷ c ∷ d ∷ e ∷ r) = omega arith

pub low_first-swap_bytes : (n : ℕ) → n < 2 ^ 32 → low_first (swap_bytes n) ≡ network_bytes n
unfolding low_first swap_bytes
low_first-swap_bytes n h = ground arith

abbrev pub blank_task : Task
blank_task = record {
  taskid = 0;
  cmdid = 0;
  channel_id = 0;
  channel_select = 0;
  cgi = "";
  send_only = false;
  need_authed = false;
  limit_flow = true;
  limit_frequency = true;
  network_status_sensitive = false;
  channel_strategy = pos 0;
  priority = 3;
  retry_count = negsuc 0;
  server_process_cost = negsuc 0;
  total_timetout = negsuc 0;
  user_context = none;
  report_arg = "";
  shortlink_host_list = [];
}

instance unfoldable pub little_endian : Host
unfolding low_first value_of swap_bytes
little_endian = record {
  bytes32 = low_first;
  value32 = value_of;
  htonl = swap_bytes;
  size_mod = 2 ^ 64;
  default_task = blank_task;
  malloc = λ a n. replicate n 0xcd;
  length-bytes32 = λ n. refl;
  value32-bytes32 = value_of-low_first;
  value32-lt = value_of-lt;
  bytes32-htonl = low_first-swap_bytes;
  size_mod_cases = inr refl;
  length-malloc = λ a n. length-replicate n 0xcd;
}

pub record ListBuffer : Type 0 where
  pub content : List ℕ
  pub at : ℕ

unfoldable pub overwrite : ListBuffer → List ℕ → List ℕ
overwrite b xs = take b.at b.content ++ (xs ++ drop (b.at + length xs) b.content)

-- Room is made by zeros behind the content.
unfoldable pub grow : ListBuffer → ℕ → List ℕ
grow b n = b.content ++ replicate (b.at + n - length b.content) 0

pub length-grow : (b : ListBuffer) (n : ℕ) → length (grow b n) ≡ max (length b.content) (b.at + n)
unfolding grow
length-grow b n = omega (
  arith,
  length-append b.content (replicate (b.at + n - length b.content) 0),
  length-replicate {A = ℕ} (b.at + n - length b.content) 0,
)

unfoldable pub list_buffer : AutoBuffer ListBuffer
unfolding overwrite grow
list_buffer = record {
  bytes = λ b. b.content;
  pos = λ b. b.at;
  empty = record { content = []; at = 0 };
  write = λ b xs. record { content = overwrite b xs; at = b.at + length xs };
  write_cur = λ b xs. record { content = overwrite b xs; at = b.at };
  alloc_write = λ b n. record { content = grow b n; at = b.at };
  seek_start = λ b. record { content = b.content; at = 0 };
  bytes-empty = refl;
  pos-empty = refl;
  bytes-write = λ b xs h. refl;
  pos-write = λ b xs. refl;
  bytes-write_cur = λ b xs h. refl;
  take-alloc_write = λ b n. take-append b.content _ refl;
  length-alloc_write = length-grow;
  pos-alloc_write = λ b n. refl;
  bytes-seek_start = λ b. refl;
  pos-seek_start = λ b. refl;
}

abbrev pub empty_buffer : ListBuffer
empty_buffer = record { content = []; at = 0 }

pub empty_buffer-IsFresh : IsFresh list_buffer empty_buffer
unfolding list_buffer
empty_buffer-IsFresh = record { no_bytes = refl; at_start = refl }
