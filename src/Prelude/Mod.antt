-- ===== src/Prelude/Mod.antt =====
-- Numbers with the same remainder by `d`.
use native.Mathlib.Nat.{
  mod-lt, mod-add-mod, mul-add-mod_self_left, add-mul-mod_self_left, div-add-mod, mod-eq_of_lt,
}
use Prim.Native.Nat.{ℕ, ◌+◌, ◌-◌, ◌*◌, ◌/◌, ◌%◌, ◌<◌}
use mathlib.Core.Path.{◌≡◌, sym, ap, ◌∙◌}
use native.Mathlib.Omega.{arith}

pub add-mod_same : (d x y k : ℕ) → x % d ≡ y % d → (x + k) % d ≡ (y + k) % d
add-mod_same d x y k e = sym (mod-add-mod x d k) ∙ ap (λ (r : ℕ). (r + k) % d) e ∙ mod-add-mod y d k

pub mul-mod_rest : (d x k : ℕ) → x * k % d ≡ x % d * k % d
mul-mod_rest d x k =
    let e : x * k ≡ d * (x / d * k) + x % d * k = grind (arith, div-add-mod x d) in
    ap (λ (p : ℕ). p % d) e ∙ mul-add-mod_self_left d (x / d * k) (x % d * k)

pub mul-mod_same : (d x y k : ℕ) → x % d ≡ y % d → x * k % d ≡ y * k % d
mul-mod_same d x y k e = mul-mod_rest d x k ∙ ap (λ (r : ℕ). r * k % d) e ∙ sym (mul-mod_rest d y k)

add-mod_back : (d x k : ℕ) → 0 < d → (x + k + (d - k % d)) % d ≡ x % d
add-mod_back d x k h =
    let r = mod-lt k h in
    let e : x + k + (d - k % d) ≡ x + d * (k / d + 1) = grind (arith, div-add-mod k d) in
    ap (λ (p : ℕ). p % d) e ∙ add-mul-mod_self_left x d (k / d + 1)

pub mod-cancel : (d x y k : ℕ) → 0 < d → (x + k) % d ≡ (y + k) % d → x % d ≡ y % d
mod-cancel d x y k h e =
    sym (add-mod_back d x k h) ∙ add-mod_same d (x + k) (y + k) (d - k % d) e ∙ add-mod_back d y k h

-- Two numbers less than `d` apart have different remainders.
pub mod-apart : (d x k : ℕ) → 0 < k → k < d → ¬ ((x + k) % d ≡ x % d)
mod-apart d x k p h e =
    let start : x % d ≡ (0 + x) % d = ap (λ (y : ℕ). y % d) (omega arith) in
    let swap : (k + x) % d ≡ (x + k) % d = ap (λ (y : ℕ). y % d) (omega arith) in
    let c = mod-cancel d k 0 x (omega arith) (swap ∙ e ∙ start) in
    let s : k % d ≡ k = mod-eq_of_lt h in
    let z : 0 % d ≡ 0 = mod-eq_of_lt (omega arith) in omega (arith, c, s, z)
