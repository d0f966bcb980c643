-- ===== src/Processor/Replies.antt =====
-- `_truncate_reply` of app/chatbot/processor.py.
use Prim.Native.String.{[], ◌∷◌}
use kakao_x_termux.Prelude.{
  ℕ, zero, suc, ◌≤◌, String, Option, none, some, max, leb, if◌then◌else◌, arith, Bool-cases, inl,
  inr,
}

-- The first characters of a text, and its length.
unfoldable pub take_text : ℕ → String → String
take_text zero s = []
take_text (suc n) [] = []
take_text (suc n) (c ∷ s) = c ∷ take_text n s

unfoldable pub text_length : String → ℕ
text_length [] = 0
text_length (c ∷ s) = suc (text_length s)

-- `_truncate_reply`
abbrev pub truncate_reply : ℕ → Option String → Option String
truncate_reply max_reply_chars none = none
truncate_reply max_reply_chars (some text) =
    if leb (text_length text) (max max_reply_chars 1)
    then some text
    else some (take_text (max max_reply_chars 1) text)

pub text_length-take_text : (n : ℕ) (s : String) → text_length (take_text n s) ≤ n
unfolding take_text text_length
text_length-take_text zero s = omega arith
text_length-take_text (suc n) [] = omega arith
text_length-take_text (suc n) (c ∷ s) = omega (arith, text_length-take_text n s)

-- A text within the limit, where a limit below one counts as one.
abbrev pub Fits : ℕ → Option String → Type 0
Fits n none = Unit {0}
Fits n (some text) = text_length text ≤ max n 1

pub truncate_reply-Fits : (n : ℕ) (text : Option String) → Fits n (truncate_reply n text)
truncate_reply-Fits n none = tt
truncate_reply-Fits n (some text) = elim (Bool-cases (leb (text_length text) (max n 1))) [
  | inl short ↦ rw short (ground arith)
  | inr long ↦ rw long (text_length-take_text (max n 1) text)
]
