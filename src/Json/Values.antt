-- ===== src/Json/Values.antt =====
-- What the readers return, turned back to the field that was printed.
use presence_platform.Prelude.{ℕ, ◌≤◌, ◌≡◌, ◌↔◌, Bool, Option, none, some, Bytes, length, arith}
use presence_platform.Json.Printing.{Value, number, flag, text}
use presence_platform.Json.Reading.{int_of, bool_of, text_of}

pub text_of-some :
    (max_len : ℕ) (o : Option Value) (s : Bytes)
    → (text_of max_len o ≡ some s) ↔ ((o ≡ some (text s)) × (length s ≤ max_len))
unfolding text_of
text_of-some max_len none s = (λ h. absurd (ground arith), λ (e, h). absurd (ground arith))
text_of-some max_len (some (number w)) s =
    (λ h. absurd (ground arith), λ (e, h). absurd (ground arith))
text_of-some max_len (some (flag b)) s =
    (λ h. absurd (ground arith), λ (e, h). absurd (ground arith))
text_of-some max_len (some (text t)) s = (λ h. (ground arith, ground arith), λ (e, h). ground arith)

pub int_of-some : (o : Option Value) (w : ℕ) → (int_of o ≡ some w) ↔ (o ≡ some (number w))
unfolding int_of
int_of-some none w = (λ h. absurd (ground arith), λ e. absurd (ground arith))
int_of-some (some (number v)) w = (λ h. ground arith, λ e. ground arith)
int_of-some (some (flag b)) w = (λ h. absurd (ground arith), λ e. absurd (ground arith))
int_of-some (some (text t)) w = (λ h. absurd (ground arith), λ e. absurd (ground arith))

pub bool_of-some : (o : Option Value) (b : Bool) → (bool_of o ≡ some b) ↔ (o ≡ some (flag b))
unfolding bool_of
bool_of-some none b = (λ h. absurd (ground arith), λ e. absurd (ground arith))
bool_of-some (some (number v)) b = (λ h. absurd (ground arith), λ e. absurd (ground arith))
bool_of-some (some (flag c)) b = (λ h. ground arith, λ e. ground arith)
bool_of-some (some (text t)) b = (λ h. absurd (ground arith), λ e. absurd (ground arith))
