-- ===== src/Broadcast/Sound.antt =====
-- hooks/broadcast/manager.go: which channels the manager closes, and when.
use go_fsm.Base.{
  ℕ, ◌<◌, ◌≡◌, ◌∙◌, refl, sym, subst, ap, inl, inr, true, false, some, [], ◌∷◌, ◌++◌, ◌==◌, nat_eq,
  Option-cases, Bool-cases, arith, beq_cases,
}
use go_fsm.Base.Lists.{contains, contains-append, IsUnique, IsUnique-snoc}
use go_fsm.Base.Maps.{Map, lookup, erase, has_key, is_some, lookup-erase}
use go_fsm.Broadcast.Subscriptions.{
  Subscription, Manager, new_manager, cancel, remove_locked, signal_all, sweep_all,
}

-- No subscriber's channel is closed, no channel was closed twice, and all channels are old.
pub record IsSound (m : Manager) : Type 0 where
  pub keyed : (k : ℕ) (s : Subscription) → lookup k m.subscribers ≡ some s → s.ch ≡ k
  pub unclosed : (k : ℕ) → has_key k m.subscribers ≡ true → contains m.closed k ≡ false
  pub known : (k : ℕ) → has_key k m.subscribers ≡ true → k < m.made.next_chan
  pub closed_known : (k : ℕ) → contains m.closed k ≡ true → k < m.made.next_chan
  pub once : IsUnique m.closed

pub new_manager-IsSound : IsSound new_manager
unfolding contains lookup
new_manager-IsSound = record {
  keyed = λ k s h. absurd (cc);
  unclosed = λ k h. refl;
  known = λ k h. absurd (cc);
  closed_known = λ k h. absurd (cc);
  once = tt;
}

pub cancel-IsSound : {m : Manager} → IsSound m → (sub : Subscription) → IsSound (cancel m sub)
unfolding cancel
cancel-IsSound v sub = record {
  keyed = v.keyed;
  unclosed = v.unclosed;
  known = v.known;
  closed_known = v.closed_known;
  once = v.once;
}

module _ {m : Manager} (v : IsSound m) (sub : Subscription) where
  abbrev erased : Map ℕ Subscription
  erased = erase sub.ch m.subscribers

  erased_key :
      (k : ℕ) → has_key k erased ≡ true → (has_key k m.subscribers ≡ true) × ((sub.ch == k) ≡ false)
  erased_key k h =
      ground (arith, lookup-erase sub.ch k m.subscribers, Option-cases (lookup k m.subscribers))

  erased_at :
      (k : ℕ) (s : Subscription) → lookup k erased ≡ some s → lookup k m.subscribers ≡ some s
  erased_at k s h = elim (Bool-cases (sub.ch == k)) [
    | inl e ↦ absurd (ground (arith, lookup-erase sub.ch k m.subscribers))
    | inr n ↦ sym (ground (arith, lookup-erase sub.ch k m.subscribers)) ∙ h
  ]

  closed_old :
      (k : ℕ)
      → contains (m.closed ++ sub.ch ∷ []) k ≡ true
      → (sub.ch == k) ≡ false
      → contains m.closed k ≡ true
  unfolding contains
  closed_old k q n = ground (arith, contains-append m.closed (sub.ch ∷ []) k)

  closed_new :
      (k : ℕ)
      → contains m.closed k ≡ false
      → (sub.ch == k) ≡ false
      → contains (m.closed ++ sub.ch ∷ []) k ≡ false
  unfolding contains
  closed_new k q n = ground (arith, contains-append m.closed (sub.ch ∷ []) k)

  closing-IsSound :
      has_key sub.ch m.subscribers ≡ true
      → IsSound (record m { subscribers = erased; closed = m.closed ++ sub.ch ∷ [] })
  closing-IsSound h = record {
    keyed = λ k s q. v.keyed k s (erased_at k s q);
    unclosed = λ k q. closed_new k (v.unclosed k (erased_key k q).0) (erased_key k q).1;
    known = λ k q. v.known k (erased_key k q).0;
    closed_known = λ k q. elim (beq_cases sub.ch k) [
      | inl (e, _) ↦ subst (λ c. c < m.made.next_chan) e (v.known sub.ch h)
      | inr n ↦ v.closed_known k (closed_old k q n)
    ];
    once = IsUnique-snoc m.closed sub.ch v.once (v.unclosed sub.ch h);
  }

  leaving-IsSound : IsSound (record m { subscribers = erased })
  leaving-IsSound = record {
    keyed = λ k s q. v.keyed k s (erased_at k s q);
    unclosed = λ k q. v.unclosed k (erased_key k q).0;
    known = λ k q. v.known k (erased_key k q).0;
    closed_known = v.closed_known;
    once = v.once;
  }

pub remove_locked-IsSound :
    {m : Manager} → IsSound m → (sub : Subscription) → IsSound (remove_locked m sub)
unfolding remove_locked
remove_locked-IsSound {m} v sub = elim (Option-cases (lookup sub.ch m.subscribers)) [
  | inl n ↦ rw (n, remove_locked) v
  | inr (s, e) ↦ elim (Bool-cases sub.external_channel) [
    | inl x ↦ rw (e, remove_locked) (simp x (leaving-IsSound v sub))
    | inr x ↦ rw (e, remove_locked) (simp x (closing-IsSound v sub (ap is_some e)))
  ]
]

pub signal_all-IsSound :
    (m : Manager) (subs : Map ℕ Subscription) → IsSound m → IsSound (signal_all m subs)
unfolding signal_all
signal_all-IsSound m [] v = v
signal_all-IsSound m ((k, sub) ∷ rest) v =
    signal_all-IsSound (cancel m sub) rest (cancel-IsSound v sub)

pub sweep_all-IsSound :
    (m : Manager) (subs : Map ℕ Subscription) → IsSound m → IsSound (sweep_all m subs)
unfolding sweep_all
sweep_all-IsSound m [] v = v
sweep_all-IsSound m ((k, sub) ∷ rest) v =
    sweep_all-IsSound (remove_locked (cancel m sub) sub) rest
      (remove_locked-IsSound (cancel-IsSound v sub) sub)
