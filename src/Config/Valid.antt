-- ===== src/Config/Valid.antt =====
-- Lemmas about `validate` in internal/config/config.go.
use mathlib.Core.Bool.{true≢false}
use tickstore.Prelude.{
  Assoc, Bool, Bool-cases, Bytes, List, Result, [], ap, bytes_beq_iff, bytes_eq, err, false, inl,
  inr, insert, int_eq, lookup, lookup-insert, nat_eq, ok, refl, subst, sym, true, ℕ, ◌+◌, ◌==◌, ◌↔◌,
  ◌∙◌, ◌∷◌, ◌≡◌, ◌≢◌,
}
use tickstore.Config.{ConfigError, Venue, check_venues, is_nil, validate, was_seen}

-- No venue of the list has this name.
abbrev pub IsNew : Bytes → List Venue → Type 0
IsNew name [] = Unit
IsNew name (v ∷ vs) = (name ≢ v.name) × IsNew name vs

-- Venues with a name and symbols each, of which no two have the same name.
abbrev pub IsValid : List Venue → Type 0
IsValid [] = Unit
IsValid (v ∷ vs) = (v.name ≢ []) × (v.symbols ≢ []) × IsNew v.name vs × IsValid vs

-- The names that the loop has not seen.
abbrev AllUnseen : Assoc Bytes Bool → List Venue → Type 0
AllUnseen seen [] = Unit
AllUnseen seen (v ∷ vs) = (was_seen (lookup v.name seen) ≡ false) × AllUnseen seen vs

same-false : (s t : Bytes) → ((s == t) ≡ false) ↔ (s ≢ t)
same-false s t = (
  λ e q. true≢false (sym ((bytes_beq_iff s t).1 q) ∙ e),
  λ n. elim (Bool-cases (s == t)) [ inl e ↦ absurd (n ((bytes_beq_iff s t).0 e)) | inr e ↦ e ],
)

nil-false : {A : Type 0} (xs : List A) → (is_nil xs ≡ false) ↔ (xs ≢ [])
nil-false [] = (λ e. absurd (true≢false e), λ n. absurd (n refl))
nil-false (x ∷ xs) = (λ e q. absurd (true≢false (ap is_nil (sym q))), λ n. refl)

seen-insert :
    (name : Bytes) (seen : Assoc Bytes Bool) (vs : List Venue)
    → AllUnseen (insert name true seen) vs ↔ (IsNew name vs × AllUnseen seen vs)
seen-insert name seen [] = (λ h. (tt, tt), λ h. tt)
seen-insert name seen (v ∷ vs) =
    let ih = seen-insert name seen vs in
    (
      λ h.
          let (fresh, rest) = ih.0 h.1 in
          elim (Bool-cases (name == v.name)) [
            | inl e ↦ absurd (true≢false (rw (lookup-insert name v.name true seen, e) at h.0))
            | inr e ↦ (
              ((same-false name v.name).0 e, fresh),
              (rw (lookup-insert name v.name true seen, e) at h.0, rest),
            )
          ],
      λ h. (
        rw (lookup-insert name v.name true seen, (same-false name v.name).1 h.0.0) h.1.0,
        ih.1 (h.0.1, h.1.1),
      ),
    )

IsErr : Result ConfigError (Unit {0}) → Type 0
IsErr (err e) = Unit
IsErr (ok a) = ⊥

refused : (e : ConfigError) → ◌≡◌ {A = Result ConfigError (Unit {0})} (err e) (ok tt) → ⊥
unfolding IsErr
refused e h = subst IsErr h tt

check_venues_lem :
    (i : ℕ) (seen : Assoc Bytes Bool) (vs : List Venue)
    → (check_venues i seen vs ≡ ok tt) ↔ (AllUnseen seen vs × IsValid vs)
unfolding check_venues
check_venues_lem i seen [] = (λ h. (tt, tt), λ h. refl)
check_venues_lem i seen (v ∷ vs) =
    let ih = check_venues_lem (i + 1) (insert v.name true seen) vs in
    (
      λ h. elim (Bool-cases (v.name == [])) [
        | inl e ↦ absurd (refused _ (rw e at h))
        | inr e ↦ elim (Bool-cases (was_seen (lookup v.name seen))) [
          | inl f ↦ absurd (refused _ (rw (e, f) at h))
          | inr f ↦ elim (Bool-cases (is_nil v.symbols)) [
            | inl g ↦ absurd (refused _ (rw (e, f, g) at h))
            | inr g ↦
                let rest = ih.0 (rw (e, f, g) at h) in
                let (fresh, unseen) = (seen-insert v.name seen vs).0 rest.0 in
                (
                  (f, unseen),
                  ((same-false v.name []).0 e, (nil-false v.symbols).0 g, fresh, rest.1),
                )
          ]
        ]
      ],
      λ h.
          let (named, listed, fresh, valid) = h.1 in
          rw ((same-false v.name []).1 named, h.0.0, (nil-false v.symbols).1 listed)
            (ih.1 ((seen-insert v.name seen vs).1 (fresh, h.0.1), valid)),
    )

none_seen : (vs : List Venue) → AllUnseen [] vs
unfolding lookup
none_seen [] = tt
none_seen (v ∷ vs) = (refl, none_seen vs)

-- A list of venues passes if and only if it is not empty, every venue has a name and at least one
-- symbol, and no two venues have the same name.
pub validate-ok : (vs : List Venue) → (validate vs ≡ ok tt) ↔ ((vs ≢ []) × IsValid vs)
unfolding validate
validate-ok [] = (λ h. absurd (refused _ h), λ h. absurd (h.0 refl))
validate-ok (v ∷ vs) =
    let both = check_venues_lem 0 [] (v ∷ vs) in
    (
      λ h. (λ e. true≢false (ap is_nil (sym e)), (both.0 h).1),
      λ h. both.1 (none_seen (v ∷ vs), h.1),
    )
