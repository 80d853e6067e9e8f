-- ===== src/Heap/Order.antt =====
-- The order of the entries is a strict weak order.
use go_cron.Prelude.{ℕ, ◌≡◌, refl, true, false, ◌||◌, Option, none, some, arith}
use go_cron.Prelude.Int.{ℤ, ltb_ℤ}
use go_cron.Heap.{Entry, less_at, less}

ltb_ℤ-irrefl : (p : ℤ) → ltb_ℤ p p ≡ false
ltb_ℤ-irrefl p = ground arith

ltb_ℤ-trans : (p q r : ℤ) → ltb_ℤ p q ≡ true → ltb_ℤ q r ≡ true → ltb_ℤ p r ≡ true
ltb_ℤ-trans p q r h k = ground (arith, h, k)

ltb_ℤ-between : (p q r : ℤ) → ltb_ℤ p r ≡ true → (ltb_ℤ p q || ltb_ℤ q r) ≡ true
ltb_ℤ-between p q r h = ground (arith, h)

less_at_trans :
    (t u v : Option ℕ) (p q r : ℤ)
    → less_at t p u q ≡ true
    → less_at u q v r ≡ true
    → less_at t p v r ≡ true
unfolding less_at
less_at_trans none u v p q r h k = cc
less_at_trans (some t) none v p q r h k = cc
less_at_trans (some t) (some u) none p q r h k = refl
less_at_trans (some t) (some u) (some v) p q r h k = ground (arith, h, k, ltb_ℤ-trans r q p)

less_at_between :
    (t u v : Option ℕ) (p q r : ℤ)
    → less_at t p v r ≡ true
    → (less_at t p u q || less_at u q v r) ≡ true
unfolding less_at
less_at_between none u v p q r h = cc
less_at_between (some t) none v p q r h = refl
less_at_between (some t) (some u) none p q r h = ground arith
less_at_between (some t) (some u) (some v) p q r h = ground (arith, h, ltb_ℤ-between r q p)

less_at_irrefl : (t : Option ℕ) (p : ℤ) → less_at t p t p ≡ false
unfolding less_at
less_at_irrefl none p = refl
less_at_irrefl (some t) p = ground (arith, ltb_ℤ-irrefl p)

-- Less is a strict weak order: no entry is before itself, the order is transitive, and of two entries in order every third one is after the first or before the second; an entry without a next run, or with the same time and priority, takes part like any other.
pub less-StrictWeakOrder :
    (e f g : Entry)
    → (less e e ≡ false)
      × (less e f ≡ true → less f g ≡ true → less e g ≡ true)
      × (less e g ≡ true → (less e f || less f g) ≡ true)
unfolding less
less-StrictWeakOrder e f g = (
  less_at_irrefl e.next e.priority,
  less_at_trans e.next f.next g.next e.priority f.priority g.priority,
  less_at_between e.next f.next g.next e.priority f.priority g.priority,
)
