-- ===== src/Prelude/Outcome.antt =====
-- What a call on a monitor can come to: it returns, it waits on a condition variable, or it reads
-- an index that the container does not hold.

pub data Attempt {ℓ} (A : Type ℓ) : Type ℓ where
  done : A → Attempt A
  blocked : Attempt A
  out_of_range : Attempt A

infixl 5 ◌>>=◌
abbrev pub ◌>>=◌ {ℓ κ} : {A : Type ℓ} {B : Type κ} → Attempt A → (A → Attempt B) → Attempt B
done a >>= f = f a
blocked >>= f = blocked
out_of_range >>= f = out_of_range

-- The state after a call that gives a new state: a call that does not return has not changed it.
abbrev pub after {ℓ} : {S : Type ℓ} → S → Attempt S → S
after s (done t) = t
after s blocked = s
after s out_of_range = s
