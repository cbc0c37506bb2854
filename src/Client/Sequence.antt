-- ===== src/Client/Sequence.antt =====
-- The sequence numbers of client.c.
use chis_link.Common.{ℕ, zero, suc, ◌+◌, ◌-◌, ◌%◌, ◌≤◌, ◌<◌, ◌≡◌, ◌≢◌, arith, IsU16}
use chis_link.Client.{Client, next_seq}

-- A new sequence number is from 1 to 65535 and is not the one before it.
pub next_seq_lem :
    (c : Client)
    → IsU16 c.next_seq
    → let (seq, c') = next_seq c in (1 ≤ seq) × IsU16 seq × (seq ≢ c.next_seq) × (c'.next_seq ≡ seq)
unfolding next_seq
next_seq_lem c h = ground arith

-- The sequence number of the `n`-th command from now on.
pub nth_seq : ℕ → Client → ℕ
nth_seq zero c = c.next_seq
nth_seq (suc n) c = nth_seq n (next_seq c).1

nth_seq_value :
    (n : ℕ) (c : Client)
    → 1 ≤ c.next_seq
    → IsU16 c.next_seq
    → nth_seq n c ≡ (c.next_seq - 1 + n) % 65535 + 1
unfolding nth_seq
nth_seq_value zero c lo hi = omega arith
nth_seq_value (suc n) c lo hi = omega (
  arith,
  nth_seq_value n (next_seq c).1 (omega (arith, next_seq_lem c hi))
      (omega (arith, next_seq_lem c hi)),
  step,
)
  where
    step : (next_seq c).1.next_seq ≡ c.next_seq % 65535 + 1
    step = unfold next_seq in ground arith

-- From a client whose number is from 1 to 65535 on, two different commands that are fewer than
-- 65535 commands apart carry different sequence numbers.
pub nth_seq-injective :
    (c : Client) (n m : ℕ)
    → 1 ≤ c.next_seq
    → IsU16 c.next_seq
    → n < m
    → m < n + 65535
    → nth_seq n c ≢ nth_seq m c
nth_seq-injective c n m lo hi p q = omega (arith, nth_seq_value n c lo hi, nth_seq_value m c lo hi)
