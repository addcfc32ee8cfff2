-- ===== src/RateLimit/Lockout/Keys.antt =====
-- The two keys of an account are different keys of the store.
use Prim.Native.Char.{code}
use Prim.Native.String
use text.Mathlib.TextLemmas.{cons-append, append_assoc, append_cancel_left}
use scout_off_backend.Prelude.{ℕ, String, ◌≡◌, ◌≢◌, sym, ap, ◌∙◌, arith}
use scout_off_backend.RateLimit.Lockout.{fail_key, lock_key}

abbrev first_code : String → ℕ
first_code String.[] = 0
first_code (String.◌∷◌ c s) = code c

rest-ne : (a b : String) → String.◌++◌ "locked:account:" a ≢ String.◌++◌ "fail:" b
rest-ne a b e =
    let codes : ◌≡◌ {A = ℕ} 108 102 =
      ap first_code (sym (cons-append "l" "ocked:account:" a) ∙ e ∙ cons-append "f" "ail:" b) in
    absurd (omega arith)

pub lock_key-ne-fail_key : (a b : String) → lock_key a ≢ fail_key b
lock_key-ne-fail_key a b e = rest-ne a b (
    append_cancel_left "auth:" _ _
      (sym (append_assoc "auth:" "locked:account:" a) ∙ e ∙ append_assoc "auth:" "fail:" b))
