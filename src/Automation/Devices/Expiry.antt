-- ===== src/Automation/Devices/Expiry.antt =====
-- What expiry leaves of the leases, backend/app/automation/devices.py.
use qa_platform_learning.Common.Tests.{
  ℕ, ◌≡◌, refl, sym, ap, ◌∙◌, ◌⊎◌, inl, inr, true, false, Option, none, some, List, [], ◌∷◌, arith,
  nat_keyed, nat_beq, nat_beq_iff, Bool-cases, Option-cases,
}
use qa_platform_learning.Common.Lists.{Among}
use qa_platform_learning.Common.Dict.{Dict, lookup}
use qa_platform_learning.Common.Result.{ok, Action, pure, ◌>>=◌}
use qa_platform_learning.Common.Holds.{Holds-pure, bind-any, Then, Then-both}
use qa_platform_learning.Automation.Errors.{Error}
use qa_platform_learning.Automation.Devices.Model.{expired, is_active, Lease}
use qa_platform_learning.Automation.Devices.Manager.{
  Manager, ended, is_over, keys, add_some, expire_one, expire_loop, expire_locked, put_lease,
}
use qa_platform_learning.Automation.Devices.Invariant.{IsValid}
use qa_platform_learning.Common.Lookup.{found_after}
use qa_platform_learning.Automation.Devices.Preserved.{
  expire_one-IsValid, expire_one-over, expire_one-live, expire_one-missing, expire_loop-keeps,
  holds-some, expire_locked-IsValid, expire_locked-misses,
}
use mathlib.Core.Path.{subst}

module _ (now : ℕ) where
  -- The lease under `j` is not one that expiry has to end.
  abbrev pub InTime : ℕ → Manager → Type 0
  InTime j m = (l : Lease) → lookup j m.leases ≡ some l → is_over now l ≡ false

  -- A lease that is over ends with its device's link, in a valid manager.
  expire_one-effect :
      (k : ℕ) (m : Manager)
      → IsValid m
      → ((expire_one now k m).1.leases ≡ m.leases) × InTime k m
        ⊎ ((l : Lease) × (lookup k m.leases ≡ some l)
            × (l.id ≡ k)
            × ((expire_one now k m).1.leases ≡ (put_lease (ended expired now l) m).leases))
  expire_one-effect k m v = elim (Option-cases (lookup k m.leases)) [
    | inl missing ↦ inl (
      ap (λ p. p.1.leases) (expire_one-missing now k m missing),
      λ l found. absurd (cc (sym missing ∙ found)),
    )
    | inr (l, at) ↦ elim (Bool-cases (is_over now l)) [
      | inl over ↦
          let lives : is_active l.status ≡ true = ground arith in
          let (d, there, names) = v.named k l at lives in
          let own = v.lease_id k l at in
          inr (
            l,
            at,
            own,
            ap (λ p. p.1.leases)
                (expire_one-over now k m l d at over there
                  (holds-some _ _ (names ∙ ap some (sym own)))),
          )
      | inr live ↦ inl (
        ap (λ p. p.1.leases) (expire_one-live now k m l at live),
        λ x found. same x found live at,
      )
    ]
  ]
    where
      same :
          {l : Lease} (x : Lease)
          → lookup k m.leases ≡ some x
          → is_over now l ≡ false
          → lookup k m.leases ≡ some l
          → is_over now x ≡ false
      same x found live at = cc

  ended-InTime :
      (k j : ℕ) (l : Lease) (m : Manager)
      → InTime j m
      → InTime j (put_lease (ended expired now l) m)
  ended-InTime k j l m before x found =
      elim (found_after l.id j (ended expired now l) x m.leases found) [
        | inl (_, e) ↦ subst (λ (y : Lease). is_over now y ≡ false) e refl
        | inr (_, old) ↦ before x old
      ]

  expire_one-InTime :
      (k j : ℕ) (m : Manager) → IsValid m → InTime j m → InTime j (expire_one now k m).1
  expire_one-InTime k j m v before x found = elim (expire_one-effect k m v) [
    | inl (same, _) ↦ before x (ap (λ d. lookup j d) (sym same) ∙ found)
    | inr (l, _, _, changed) ↦
        ended-InTime k j l m before x (ap (λ d. lookup j d) (sym changed) ∙ found)
  ]

  expire_one-Done : (k : ℕ) (m : Manager) → IsValid m → InTime k (expire_one now k m).1
  expire_one-Done k m v x found = elim (expire_one-effect k m v) [
    | inl (same, before) ↦ before x (ap (λ d. lookup k d) (sym same) ∙ found)
    | inr (l, at, own, changed) ↦
        elim (found_after l.id k (ended expired now l) x m.leases
          (ap (λ d. lookup k d) (sym changed) ∙ found)) [
            | inl (_, e) ↦ subst (λ (y : Lease). is_over now y ≡ false) e refl
            | inr (ne, _) ↦ absurd (ne own)
          ]
  ]

  expire_one-ok :
      (k : ℕ) (m : Manager) → IsValid m → (o : Option Lease) × ((expire_one now k m).0 ≡ ok o)
  expire_one-ok k m v = elim (Option-cases (lookup k m.leases)) [
    | inl missing ↦ (none, ap (λ p. p.0) (expire_one-missing now k m missing))
    | inr (l, at) ↦ elim (Bool-cases (is_over now l)) [
      | inl over ↦
          let lives : is_active l.status ≡ true = ground arith in
          let (d, there, names) = v.named k l at lives in
          let own = v.lease_id k l at in
          (
            some (ended expired now l),
            ap (λ p. p.0)
                (expire_one-over now k m l d at over there
                  (holds-some _ _ (names ∙ ap some (sym own)))),
          )
      | inr live ↦ (none, ap (λ p. p.0) (expire_one-live now k m l at live))
    ]
  ]

  abbrev gathered : Option Lease → List Lease → Action Manager Error (List Lease)
  gathered changed ls = pure (add_some changed ls)

  -- The rest of the loop, after one lease.
  finish :
      (Q : Manager → Type 0) (k : ℕ) (ks : List ℕ) (m : Manager)
      → IsValid m
      → Q (expire_loop now ks (expire_one now k m).1).1
      → Q (expire_loop now (k ∷ ks) m).1
  unfolding expire_loop
  finish Q k ks m v h =
      let n = (expire_one now k m).1 in
      let (o, e) = expire_one-ok k m v in
      (bind-any {Post = λ r s. Q s} (expire_one now k)
        (λ changed. expire_loop now ks >>= gathered changed) m
        (record {
          at =
              subst
                (λ r. Then (λ q s. Q s) (λ changed. expire_loop now ks >>= gathered changed) r n)
                (sym e)
                (bind-any {Post = λ r s. Q s} (expire_loop now ks) (gathered o) n (record {
                  at =
                      Then-both {Post = λ r s. Q s} (gathered o) (expire_loop now ks n).0
                        (expire_loop now ks n).1 (λ _. h) λ ls. Holds-pure _ _ h;
                }));
        })).at

  expire_loop-Ends :
      (j : ℕ) (ks : List ℕ) (m : Manager)
      → Among j ks
      → IsValid m
      → InTime j (expire_loop now ks m).1
  expire_loop-Ends j [] m missing v = absurd missing
  expire_loop-Ends j (k ∷ ks) m among v =
      let n = (expire_one now k m).1 in
      let w = expire_one-IsValid now k m v in
      finish (InTime j) k ks m v (elim among [
        | inl here ↦ settled ks n w (subst (λ i. InTime i n) here (expire_one-Done k m v))
        | inr later ↦ expire_loop-Ends j ks n later w
      ])
    where
      settled :
          (ks : List ℕ) (n : Manager) → IsValid n → InTime j n → InTime j (expire_loop now ks n).1
      settled ks n w h =
          ((expire_loop-keeps (λ x. IsValid x × InTime j x) now
            (λ i x y. (expire_one-IsValid now i x y.0, expire_one-InTime i j x y.0 y.1)) ks n
            (w, h)).at
          ).1

  key-Among : (j : ℕ) (l : Lease) (d : Dict ℕ Lease) → lookup j d ≡ some l → Among j (keys d)
  key-Among j l [] found = absurd (cc)
  key-Among j l ((k, x) ∷ d) found = elim (Bool-cases (nat_beq k j)) [
    | inl same ↦ inl ((nat_beq_iff k j).0 same)
    | inr other ↦ inr (key-Among j l d (rw other at found))
  ]

  missing_stays :
      (j : ℕ) (m : Manager)
      → IsValid m
      → lookup j m.leases ≡ none
      → InTime j (expire_locked now m).1
  missing_stays j m v gone l found = absurd (cc (sym (expire_locked-misses now j m v gone) ∙ found))

  -- Expiry on a valid manager leaves no active lease whose end has come, and leaves the manager
  -- valid.
  pub expire_leaves_none :
      (m : Manager)
      → IsValid m
      → IsValid (expire_locked now m).1
        × ((j : ℕ) (l : Lease)
            → lookup j (expire_locked now m).1.leases ≡ some l
            → is_over now l ≡ false)
  unfolding expire_locked
  expire_leaves_none m v =
      (expire_locked-IsValid now m v, λ j. at j (Option-cases (lookup j m.leases)))
    where
      at :
          (j : ℕ)
          → (lookup j m.leases ≡ none) ⊎ ((l : Lease) × (lookup j m.leases ≡ some l))
          → InTime j (expire_locked now m).1
      at j (inl gone) = missing_stays j m v gone
      at j (inr (l, found)) = expire_loop-Ends j (keys m.leases) m (key-Among j l m.leases found) v
