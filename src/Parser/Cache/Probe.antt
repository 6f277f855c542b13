-- ===== src/Parser/Cache/Probe.antt =====
-- The probe of `find_property` in src/parser.rs: the positions that it tries, and the oldest located
-- property of a name.
use ferrisetw.Base.{
  ℕ, zero, suc, ◌+◌, ◌-◌, ◌%◌, ◌≤◌, ◌<◌, ◌≡◌, refl, sym, ap, subst, ◌∙◌, inl, inr, ◌⊎◌, String,
  Option, none, some, List, [], ◌∷◌, ◌++◌, true, false, ltb, length, get_elem?, get_elem?-none,
  get_elem?-lt, Option-cases, Bool-cases, arith, if◌then◌else◌, ◌=s=◌,
}
use mathlib.Core.Option.{some_inj}
use native.Mathlib.Nat.{mod-lt, mod-eq_of_lt, mod-add-mod, add-mod_right, add-zero}
use native.Mathlib.Decide.{ℕ_discrete}
use ferrisetw.Tdh.Property.{name}
use ferrisetw.Record.{PropertySlice}
use ferrisetw.Parser.Cache.{probe}

abbrev pub IsNamed : String → PropertySlice → Type 0
IsNamed n s = (name s.property =s= n) ≡ true

-- The oldest located property of a name.
unfoldable pub first_named : String → List PropertySlice → Option PropertySlice
first_named n [] = none
first_named n (s ∷ ss) = if name s.property =s= n then some s else first_named n ss

pub first_named-some :
    (n : String) (ss : List PropertySlice) (s : PropertySlice)
    → first_named n ss ≡ some s
    → (i : ℕ) × (get_elem? ss i ≡ some s) × IsNamed n s
unfolding first_named
first_named-some n [] s e = cc
first_named-some n (t ∷ ss) s e = elim (Bool-cases (name t.property =s= n)) [
  | inl hit ↦ (0, rw hit at e, subst (IsNamed n) (some_inj.0 (rw hit at e)) hit)
  | inr miss ↦ let (i, at, named) = first_named-some n ss s (rw miss at e) in (suc i, at, named)
]

pub first_named-none :
    (n : String) (ss : List PropertySlice) (i : ℕ) (s : PropertySlice)
    → first_named n ss ≡ none
    → get_elem? ss i ≡ some s
    → (name s.property =s= n) ≡ false
unfolding first_named
first_named-none n [] i s e at = cc
first_named-none n (t ∷ ss) zero s e at = ground arith
first_named-none n (t ∷ ss) (suc i) s e at = ground (arith, first_named-none n ss i s)

pub first_named-append :
    (n : String) (ss : List PropertySlice) (s : PropertySlice)
    → first_named n (ss ++ s ∷ []) ≡ (elim (first_named n ss) [
      | some t ↦ some t
      | none ↦ if name s.property =s= n then some s else none
    ])
unfolding first_named
first_named-append n [] s = refl
first_named-append n (t ∷ ss) s = elim (Bool-cases (name t.property =s= n)) [
  | inl hit ↦ rw hit
  | inr miss ↦ rw miss (first_named-append n ss s)
]

-- The probe finds a slice of the name, or there is none of that name at the positions it tries.
pub probe-some :
    (n : String) (ss : List PropertySlice) (next_probe rounds i idx : ℕ) (s : PropertySlice)
    → probe n ss next_probe rounds i ≡ some (idx, s)
    → (get_elem? ss idx ≡ some s) × IsNamed n s
unfolding probe
probe-some n ss next_probe zero i idx s e = cc
probe-some n ss next_probe (suc rounds) i idx s e =
    elim (Option-cases (get_elem? ss ((next_probe + i) % length ss))) [
      | inl out ↦ cc (rw (out, probe) at e)
      | inr (t, at) ↦ elim (Bool-cases (name t.property =s= n)) [
        | inl hit ↦
            let e' : some ((next_probe + i) % length ss, t) ≡ some (idx, s) =
              rw (at, hit, probe) at e in
            subst (λ (p : ℕ × PropertySlice). (get_elem? ss p.0 ≡ some p.1) × IsNamed n p.1)
              (some_inj.0 e') (at, hit)
        | inr miss ↦ probe-some n ss next_probe rounds (i + 1) idx s (rw (at, miss, probe) at e)
      ]
    ]

-- A position is tried at some round.
unfoldable pub probe_offset : ℕ → ℕ → ℕ → ℕ
probe_offset next_probe len j =
    if ltb j (next_probe % len) then j + len - next_probe % len else j - next_probe % len

pub probe_offset-lt : (next_probe len j : ℕ) → j < len → probe_offset next_probe len j < len
unfolding probe_offset
probe_offset-lt next_probe len j h = ground (arith, mod-lt next_probe {m = len} (omega arith))

offset_total :
    (next_probe len j : ℕ)
    → j < len
    → (next_probe % len + probe_offset next_probe len j ≡ j + len)
      ⊎ (next_probe % len + probe_offset next_probe len j ≡ j)
unfolding probe_offset
offset_total next_probe len j h = elim (Bool-cases (ltb j (next_probe % len))) [
  | inl e ↦ inl (rw e (omega (arith, mod-lt next_probe {m = len} (omega arith))))
  | inr e ↦ inr (rw e (ground arith))
]

pub probe_offset-mod :
    (next_probe len j : ℕ) → j < len → (next_probe + probe_offset next_probe len j) % len ≡ j
probe_offset-mod next_probe len j h =
    sym (mod-add-mod next_probe len (probe_offset next_probe len j)) ∙ landing total
  where
    total :
        (next_probe % len + probe_offset next_probe len j ≡ j + len)
        ⊎ (next_probe % len + probe_offset next_probe len j ≡ j)
    total = offset_total next_probe len j h

    landing :
        (next_probe % len + probe_offset next_probe len j ≡ j + len)
          ⊎ (next_probe % len + probe_offset next_probe len j ≡ j)
        → (next_probe % len + probe_offset next_probe len j) % len ≡ j
    landing (inl e) = rw e (add-mod_right j len ∙ mod-eq_of_lt h)
    landing (inr e) = rw e (mod-eq_of_lt h)

pub probe-none :
    (n : String) (ss : List PropertySlice) (next_probe rounds i k : ℕ)
    → probe n ss next_probe rounds i ≡ none
    → i ≤ k
    → k < rounds + i
    → (s : PropertySlice) → get_elem? ss ((next_probe + k) % length ss) ≡ some s
    → 0 < length ss
    → (name s.property =s= n) ≡ false
unfolding probe
probe-none n ss next_probe zero i k e lo hi s at pos = absurd (omega arith)
probe-none n ss next_probe (suc rounds) i k e lo hi s at pos =
    elim (Option-cases (get_elem? ss ((next_probe + i) % length ss))) [
      | inl out ↦
          absurd
            (omega (arith, get_elem?-none ss _ out, mod-lt (next_probe + i) {m = length ss} pos))
      | inr (t, found) ↦ elim (Bool-cases (name t.property =s= n)) [
        | inl hit ↦ cc (rw (found, hit, probe) at e)
        | inr miss ↦ elim (ℕ_discrete i k) [
          | yes same ↦
              subst (λ (u : PropertySlice). (name u.property =s= n) ≡ false)
                (some_inj.0 (
                  sym found
                  ∙ ap (λ (j : ℕ). get_elem? ss ((next_probe + j) % length ss)) same
                  ∙ at))
                miss
          | no other ↦
              probe-none n ss next_probe rounds (i + 1) k (rw (found, miss, probe) at e)
                (omega arith) (omega arith) s at pos
        ]
      ]
    ]

-- The first position tried is the one that the probe stands on.
pub probe-first_round :
    (n : String) (ss : List PropertySlice) (next_probe : ℕ) (s : PropertySlice)
    → get_elem? ss next_probe ≡ some s
    → IsNamed n s
    → probe n ss next_probe (length ss) 0 ≡ some (next_probe, s)
unfolding probe
probe-first_round n [] next_probe s at named = cc
probe-first_round n (t ∷ ss) next_probe s at named =
    let lt = get_elem?-lt (t ∷ ss) next_probe s at in
    let here : (next_probe + 0) % suc (length ss) ≡ next_probe =
      ap (λ (k : ℕ). k % suc (length ss)) (add-zero next_probe) ∙ mod-eq_of_lt lt in
    rw (ap (get_elem? (t ∷ ss)) here ∙ at, named, probe) (ap (λ (k : ℕ). some (k, s)) here)
