-- ===== src/RateLimiter.antt =====
-- app/chatbot/reply_rate_limiter.py: the next free slot of each bot, room or sender. Times are milliseconds
-- on ℕ (the source's are seconds as a float), and the clock is an argument.
use kakao_x_termux.Prelude.{
  ℕ, ◌+◌, ◌-◌, ◌≤◌, String, ◌≡◌, Option, none, some, false, List, [], ◌∷◌, eq_iff, eq_refl,
  if◌then◌else◌, arith, max, eqb,
}
use kakao_x_termux.Dict.{Dict, lookup, insert, lookup-insert}
use kakao_x_termux.StateStore.Keys.{join, clean_sender}

pub data Scope : Type 0 where
  global room sender : Scope

-- The arguments of a call of `wait`, and the clock when it is made.
pub record WaitCall : Type 0 where
  pub bot_key : String
  pub room_key : String
  pub sender_name : Option String
  pub interval_millis : ℕ
  pub scope : Scope
  pub now : ℕ

-- `_key`
abbrev pub key_of : WaitCall → String
key_of c = elim c.scope [
  | global ↦ join c.bot_key "|*|*"
  | sender ↦ join c.bot_key (join "|" (join c.room_key (join "|" (clean_sender c.sender_name))))
  | room ↦ join c.bot_key (join "|" (join c.room_key "|*"))
]

-- `self._next_at.get(key, 0.0)`
abbrev pub next_at : String → Dict ℕ → ℕ
next_at k slots = elim (lookup k slots) [ none ↦ 0 | some t ↦ t ]

-- `wait`: the slots after the call, and how long it waits. An interval of 0 is not limited.
unfoldable pub wait : WaitCall → Dict ℕ → Dict ℕ × ℕ
wait c slots = if eqb c.interval_millis 0 then (slots, 0) else (
  insert (key_of c) (max c.now (next_at (key_of c) slots) + c.interval_millis) slots,
  next_at (key_of c) slots - c.now,
)

unfoldable pub wait_all : List WaitCall → Dict ℕ → Dict ℕ
unfolding wait
wait_all [] slots = slots
wait_all (c ∷ cs) slots = wait_all cs (wait c slots).0

-- When the reply of a call goes out: the clock, and the wait.
abbrev pub goes_out : WaitCall → Dict ℕ → ℕ
goes_out c slots = c.now + (wait c slots).1

next_at-wait :
    (k : String) (c : WaitCall) (slots : Dict ℕ) → next_at k slots ≤ next_at k (wait c slots).0
unfolding wait
next_at-wait k c slots = ground (
  arith,
  eq_iff (key_of c) k,
  lookup-insert (key_of c) k (max c.now (next_at (key_of c) slots) + c.interval_millis) slots,
)

next_at-wait_all :
    (k : String) (cs : List WaitCall) (slots : Dict ℕ)
    → next_at k slots ≤ next_at k (wait_all cs slots)
unfolding wait_all
next_at-wait_all k [] slots = omega arith
next_at-wait_all k (c ∷ cs) slots =
    omega (arith, next_at-wait k c slots, next_at-wait_all k cs (wait c slots).0)

next_at-own :
    (c : WaitCall) (slots : Dict ℕ)
    → eqb c.interval_millis 0 ≡ false
    → next_at (key_of c) (wait c slots).0 ≡ goes_out c slots + c.interval_millis
unfolding wait
next_at-own c slots positive = ground (
  arith,
  eq_refl (key_of c),
  lookup-insert (key_of c) (key_of c) (max c.now (next_at (key_of c) slots) + c.interval_millis)
      slots,
)

goes_out_after :
    (c : WaitCall) (slots : Dict ℕ)
    → eqb c.interval_millis 0 ≡ false
    → next_at (key_of c) slots ≤ goes_out c slots
unfolding wait
goes_out_after c slots positive = ground arith

-- Two limited calls with the same key, whatever calls are made between them and whatever the clocks say: the
-- reply of the second goes out at least the first one's interval after the reply of the first.
pub wait-spaced :
    (first second : WaitCall) (between : List WaitCall) (slots : Dict ℕ)
    → eqb first.interval_millis 0 ≡ false
    → eqb second.interval_millis 0 ≡ false
    → key_of first ≡ key_of second
    → goes_out first slots + first.interval_millis
      ≤ goes_out second (wait_all between (wait first slots).0)
wait-spaced first second between slots p q same = omega (
  arith,
  next_at-own first slots p,
  next_at-wait_all (key_of first) between (wait first slots).0,
  after,
)
  where
    after :
        next_at (key_of first) (wait_all between (wait first slots).0)
        ≤ goes_out second (wait_all between (wait first slots).0)
    after = rw same (goes_out_after second (wait_all between (wait first slots).0) q)
