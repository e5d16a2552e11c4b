-- ===== src/Callback/ErrorCode.antt =====
-- What the listener of a request learns from `OnTaskEnd` about an error: `OnError` is given the error code,
-- but not the error type, which says of which enumeration the code is.
use mars_wrapper.Prelude.{ℕ, ◌≡◌, ◌≢◌, refl, sym, ap, ◌∙◌, List, [], ◌∷◌, some}
use mars_wrapper.Prelude.Int.{ℤ, pos}
use mars_wrapper.Host.{Host}
use mars_wrapper.Memory.{World, Call, on_error}
use mars_wrapper.Task.{
  ErrCmdType, err_code, ect_ok, ect_false, ect_dial, ect_dns, ect_socket, ect_http, ect_net_msg_xp,
  ect_en_decode, ect_server, ect_local, ect_canceld,
}
use mars_wrapper.Mars.Errors.{
  LongError, long_code, long_first_pkg_timeout, long_pkg_pkg_timeout, long_read_write_timeout,
  long_task_timeout, HttpError, http_code, http_first_pkg_timeout, http_pkg_pkg_timeout,
  http_read_write_timeout, http_task_timeout, Reason, reason_code, reason_code-injective,
}
use mars_wrapper.Proxy.Owned.{Inv, pending}
use mars_wrapper.Proxy.Remove.{without}
use mars_wrapper.Callback.{on_task_end}
use mars_wrapper.Callback.TaskEnd.{end_calls, told-Inv, context_of_pending, on_task_end_lem}

-- The timeout of a long link as it is over HTTP.
abbrev pub over_http : LongError → HttpError
over_http long_first_pkg_timeout = http_first_pkg_timeout
over_http long_pkg_pkg_timeout = http_pkg_pkg_timeout
over_http long_read_write_timeout = http_read_write_timeout
over_http long_task_timeout = http_task_timeout

code-over_http : (x : LongError) → long_code x ≡ http_code (over_http x)
code-over_http long_first_pkg_timeout = refl
code-over_http long_pkg_pkg_timeout = refl
code-over_http long_read_write_timeout = refl
code-over_http long_task_timeout = refl

abbrev told_error : ℕ → ℤ → List Call
told_error listener code = on_error listener code "request failed." ∷ []

end_calls_lem :
    (listener : ℕ) (e : ErrCmdType) (code : ℤ)
    → e ≢ ect_ok
    → end_calls (some listener) (err_code e) code ≡ told_error listener code
end_calls_lem listener ect_ok code fails = absurd (fails refl)
end_calls_lem listener ect_false code fails = refl
end_calls_lem listener ect_dial code fails = refl
end_calls_lem listener ect_dns code fails = refl
end_calls_lem listener ect_socket code fails = refl
end_calls_lem listener ect_http code fails = refl
end_calls_lem listener ect_net_msg_xp code fails = refl
end_calls_lem listener ect_en_decode code fails = refl
end_calls_lem listener ect_server code fails = refl
end_calls_lem listener ect_local code fails = refl
end_calls_lem listener ect_canceld code fails = refl

module _ ⦃h : Host⦄ {w : World} (inv : Inv w) (t listener : ℕ) (body : List ℕ)
    (waits : pending w t ≡ some (some listener, body)) where
  -- The world after the task has failed.
  failed : ℤ → World
  failed code =
      let (ctx, held, _, _) = context_of_pending inv waits in
      without (told-Inv inv (told_error listener code)) held

  log-failed : (code : ℤ) → (failed code).log ≡ on_error listener code "request failed." ∷ w.log
  unfolding failed
  log-failed code = refl

  on_task_end-failed :
      (e : ErrCmdType) (code : ℤ)
      → e ≢ ect_ok
      → on_task_end t (err_code e) code w ≡ some (pos 0, failed code)
  unfolding failed
  on_task_end-failed e code fails =
      let (ctx, held, cb, _) = context_of_pending inv waits in
      on_task_end_lem inv t (err_code e) code ctx held
      ∙ ap (λ calls. some (pos 0, without (told-Inv inv calls) held))
          (ap (λ p. end_calls p (err_code e) code) cb ∙ end_calls_lem listener e code fails)

  module _ (e f : ErrCmdType) (e_fails : e ≢ ect_ok) (f_fails : f ≢ ect_ok) where
    same_end : (code : ℤ) → on_task_end t (err_code e) code w ≡ on_task_end t (err_code f) code w
    same_end code = on_task_end-failed e code e_fails ∙ sym (on_task_end-failed f code f_fails)

    told_code : (c d : ℤ) → on_task_end t (err_code e) c w ≡ on_task_end t (err_code f) d w → c ≡ d
    told_code c d same =
        let worlds : failed c ≡ failed d =
          cc (same, on_task_end-failed e c e_fails, on_task_end-failed f d f_fails) in
        cc (log-failed c, log-failed d, ap (λ v. v.log) worlds)

    -- In well-formed memory, for a task that waits with a listener, and any two error types: with one
    -- error code the task ends in one state, in which the listener was told the same, and with two codes
    -- in two. So no two errors of a long link, of its sockets and of the library itself end the task in one
    -- state, but each timeout of a long link ends it as that timeout over HTTP does.
    pub on_task_end-code :
        ((code : ℤ) → on_task_end t (err_code e) code w ≡ on_task_end t (err_code f) code w)
        × ((c d : ℤ) → on_task_end t (err_code e) c w ≡ on_task_end t (err_code f) d w → c ≡ d)
        × ((x y : Reason)
            → on_task_end t (err_code e) (reason_code x) w
              ≡ on_task_end t (err_code f) (reason_code y) w
            → x ≡ y)
        × ((x : LongError)
            → on_task_end t (err_code e) (long_code x) w
              ≡ on_task_end t (err_code f) (http_code (over_http x)) w)
    on_task_end-code = (
      same_end,
      told_code,
      λ x y same. reason_code-injective x y (told_code (reason_code x) (reason_code y) same),
      λ x.
          same_end (long_code x)
          ∙ ap (λ code. on_task_end t (err_code f) code w) (code-over_http x),
    )
