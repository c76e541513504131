-- ===== src/SessionGuard/Allowances.antt =====
-- The allowances that a change of the limit leaves in a NativeSessionGuard.
use goodwe_wallbox_sems_home.Prelude.{
  ℕ, ◌+◌, ◌≤◌, ◌≡◌, refl, Bool, true, false, none, some, List, [], ◌∷◌, arith, ltb, All, All-append,
  Bool-cases, inl, inr, if◌then◌else◌, ◌==◌,
}
use goodwe_wallbox_sems_home.SessionGuard.Defs.{
  Guard, begin, arm, update_limit, change_limit, unexpired,
}

-- Every allowance ends by a time.
abbrev pub EndsBy : ℕ → List (ℕ × ℕ) → Type 0
EndsBy t = All (λ e. e.1 ≤ t)

pub EndsBy-unexpired : (t now : ℕ) (xs : List (ℕ × ℕ)) → EndsBy t xs → EndsBy t (unexpired now xs)
unfolding unexpired
EndsBy-unexpired t now [] h = h
EndsBy-unexpired t now ((c, u) ∷ xs) h = elim (Bool-cases (ltb now u)) [
  | inl p ↦ rw p (h.0, EndsBy-unexpired t now xs h.1)
  | inr p ↦ rw p (EndsBy-unexpired t now xs h.1)
]

pub unexpired-nil : (t now : ℕ) (xs : List (ℕ × ℕ)) → EndsBy t xs → t ≤ now → unexpired now xs ≡ []
unfolding unexpired
unexpired-nil t now [] h le = refl
unexpired-nil t now ((c, u) ∷ xs) h le = ground (arith, h.0, unexpired-nil t now xs h.1 le)

if-EndsBy :
    (t : ℕ) (b : Bool) (xs ys : List (ℕ × ℕ))
    → EndsBy t xs
    → EndsBy t ys
    → EndsBy t (if b then xs else ys)
if-EndsBy t true xs ys h k = h
if-EndsBy t false xs ys h k = k

pub record Within (t grace limit : ℕ) (g : Guard) : Type 0 where
  pub ends : EndsBy t g.settling_limits
  pub same_grace : g.reduction_grace ≡ grace
  pub current : g.limit ≡ some limit
  pub quiet : g.error ≡ none

change_limit-Within :
    (t grace old now limit : ℕ) (g : Guard)
    → now + grace ≤ t
    → Within t grace old g
    → Within t grace limit (change_limit now limit old g)
change_limit-Within t grace old now limit g le w =
    let kept = EndsBy-unexpired t now g.settling_limits w.ends in
    let longer =
      All-append (λ (e : ℕ × ℕ). e.1 ≤ t) (unexpired now g.settling_limits)
        ((old, now + g.reduction_grace) ∷ []) kept (omega (arith, w.same_grace), tt) in
    elim (Bool-cases (limit == old)) [
      | inl p ↦ rw p (record {
        ends = w.ends;
        same_grace = w.same_grace;
        current = ground (arith, w.current);
        quiet = w.quiet;
      })
      | inr p ↦ rw p (record {
        ends = if-EndsBy t (ltb limit old) _ _ longer kept;
        same_grace = w.same_grace;
        current = refl;
        quiet = w.quiet;
      })
    ]

pub update_limit-Within :
    (t grace old now limit : ℕ) (g : Guard)
    → now + grace ≤ t
    → Within t grace old g
    → Within t grace limit (update_limit now limit g)
unfolding update_limit
update_limit-Within t grace old now limit g le w =
    rw (w.current, update_limit) (change_limit-Within t grace old now limit g le w)

pub begin-Within :
    (t now limit timeout mode : ℕ) (g h : Guard)
    → begin now limit timeout mode g ≡ some h
    → Within t g.reduction_grace limit h
unfolding begin arm
begin-Within t now limit timeout mode g h e = record {
  ends = ground arith;
  same_grace = ground arith;
  current = ground arith;
  quiet = ground arith;
}
