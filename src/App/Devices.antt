-- ===== src/App/Devices.antt =====
-- app/src/application_vulkan.cpp: which of the devices, and which of its families of queues, `SetupVulkan`
-- takes.
use device_tester.Prelude.{
  subst, ℕ, ◌+◌, ◌-◌, ◌^◌, ◌<◌, ◌≡◌, ◌⊎◌, refl, sym, zero, suc, Bool, true, false, if◌then◌else◌,
  some, none, List, [], ◌∷◌, length, get_elem?, Bool-cases, inl, inr, arith,
}

pub data DeviceType : Type 0 where
  other integrated_gpu discrete_gpu virtual_gpu cpu : DeviceType

unfoldable pub is_discrete : DeviceType → Bool
is_discrete discrete_gpu = true
is_discrete _ = false

-- The loops: the first place from `i` on that passes a test, or else what there was.
unfoldable pub first_index {ℓ} : {A : Type ℓ} → (A → Bool) → ℕ → ℕ → List A → ℕ
first_index test i otherwise [] = otherwise
first_index test i otherwise (x ∷ xs) = if test x then i else first_index test (i + 1) otherwise xs

unfoldable pub select_gpu : List DeviceType → ℕ
unfolding first_index is_discrete
select_gpu gpus = first_index is_discrete 0 0 gpus

-- A family is whether it has VK_QUEUE_GRAPHICS_BIT.
abbrev pub no_family : ℕ
no_family = 2 ^ 32 - 1

unfoldable pub select_queue_family : List Bool → ℕ
unfolding first_index
select_queue_family queues = first_index (λ graphics. graphics) 0 no_family queues

abbrev pub passes_at {ℓ} : {A : Type ℓ} → (A → Bool) → List A → ℕ → Bool
passes_at test xs i = elim (get_elem? xs i) [ none ↦ false | some x ↦ test x ]

-- No place of a list passes the test, or the first that does is this one.
abbrev IsFirst {ℓ} : {A : Type ℓ} → (A → Bool) → List A → ℕ → Type 0
IsFirst test xs j =
    (j < length xs) × (passes_at test xs j ≡ true) × ((k : ℕ) → k < j → passes_at test xs k ≡ false)

none_passes {ℓ} :
    {A : Type ℓ} (test : A → Bool) (x : A) (xs : List A)
    → test x ≡ false
    → ((k : ℕ) → passes_at test xs k ≡ false)
    → (k : ℕ) → passes_at test (x ∷ xs) k ≡ false
none_passes test x xs e h zero = e
none_passes test x xs e h (suc n) = h n

none_before {ℓ} :
    {A : Type ℓ} (test : A → Bool) (x : A) (xs : List A) (j : ℕ)
    → test x ≡ false
    → ((k : ℕ) → k < j → passes_at test xs k ≡ false)
    → (k : ℕ) → k < suc j
    → passes_at test (x ∷ xs) k ≡ false
none_before test x xs j e h zero l = e
none_before test x xs j e h (suc n) l = h n (omega (arith, l))

first_index-lem {ℓ} :
    {A : Type ℓ} (test : A → Bool) (i otherwise : ℕ) (xs : List A)
    → ((first_index test i otherwise xs ≡ otherwise) × ((k : ℕ) → passes_at test xs k ≡ false))
      ⊎ ((j : ℕ) × (first_index test i otherwise xs ≡ i + j) × IsFirst test xs j)
unfolding first_index
first_index-lem test i otherwise [] = inl (refl, λ k. refl)
first_index-lem test i otherwise (x ∷ xs) = elim (Bool-cases (test x)) [
  | inl e ↦
      inr (0, rw (first_index, e) (omega arith), (omega arith, e, λ k l. absurd (omega (arith, l))))
  | inr e ↦ elim (first_index-lem test (i + 1) otherwise xs) [
    | inl (f, h) ↦ inl (rw (first_index, e) f, none_passes test x xs e h)
    | inr (j, f, (l, p, h)) ↦ inr (
      suc j,
      rw (first_index, e) (omega (arith, f)),
      (omega (arith, l), p, none_before test x xs j e h),
    )
  ]
]

zero_add : {n : ℕ} (j : ℕ) → n ≡ 0 + j → n ≡ j
zero_add j e = omega (arith, e)

-- A device of the list, a discrete one if there is one, and no discrete one before it.
abbrev pub IsGpu : List DeviceType → ℕ → Type 0
IsGpu gpus i =
    (i < length gpus)
    × ((passes_at is_discrete gpus i ≡ true) ⊎ ((k : ℕ) → passes_at is_discrete gpus k ≡ false))
    × ((k : ℕ) → k < i → passes_at is_discrete gpus k ≡ false)

-- The first family with graphics, or the number that stands for none, and then no family has them.
abbrev pub IsFamily : List Bool → ℕ → Type 0
IsFamily queues i =
    ((i < length queues)
      × (passes_at (λ graphics. graphics) queues i ≡ true)
      × ((k : ℕ) → k < i → passes_at (λ graphics. graphics) queues k ≡ false))
    ⊎ ((i ≡ no_family) × ((k : ℕ) → passes_at (λ graphics. graphics) queues k ≡ false))

select_gpu-IsGpu : (gpus : List DeviceType) → 0 < length gpus → IsGpu gpus (select_gpu gpus)
unfolding select_gpu
select_gpu-IsGpu gpus n = elim (first_index-lem is_discrete 0 0 gpus) [
  | inl (f, h) ↦ (omega (arith, f, n), inr h, λ k l. h k)
  | inr (j, f, (l, p, h)) ↦ (
    omega (arith, f, l),
    inl (subst (λ n. passes_at is_discrete gpus n ≡ true) (sym (zero_add j f)) p),
    λ k m. h k (omega (arith, m, f)),
  )
]

select_queue_family-IsFamily : (queues : List Bool) → IsFamily queues (select_queue_family queues)
unfolding select_queue_family
select_queue_family-IsFamily queues =
    elim (first_index-lem (λ graphics. graphics) 0 no_family queues) [
      | inl (f, h) ↦ inr (f, h)
      | inr (j, f, (l, p, h)) ↦ inl (
        omega (arith, f, l),
        subst (λ n. passes_at (λ graphics. graphics) queues n ≡ true) (sym (zero_add j f)) p,
        λ k m. h k (omega (arith, m, f)),
      )
    ]

-- Of one device or more, the one that is taken is among them: a discrete one if there is one, and no
-- discrete one is listed before it. The family of queues that is taken is the first one with graphics, or
-- else the number that stands for none, which the assertion stops, and no family has graphics.
pub select-lem :
    (gpus : List DeviceType) (queues : List Bool)
    → 0 < length gpus
    → IsGpu gpus (select_gpu gpus) × IsFamily queues (select_queue_family queues)
select-lem gpus queues n = (select_gpu-IsGpu gpus n, select_queue_family-IsFamily queues)
