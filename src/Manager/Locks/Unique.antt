-- ===== src/Manager/Locks/Unique.antt =====
-- `deviceLock`: one mutex for a device, and never one for two devices.
use omemo_go.Base.{
  ℕ, ◌+◌, ◌<◌, ◌≡◌, refl, sym, ◌∙◌, ap, ◌≢◌, ◌⊎◌, inl, inr, arith, Option, none, some,
}
use omemo_go.Base.GoMap.{lookup, insert, lookup-insert}
use omemo_go.Types.{Device, device_eq}
use omemo_go.Manager.Locks.{LockTable, no_locks, found_lock, device_lock}

-- Every mutex was created before, and serves one device.
pub record IsOrderly (t : LockTable) : Type 0 where
  pub below : (dev : Device) (l : ℕ) → lookup dev t.mutexes ≡ some l → l < t.created
  pub distinct :
      (d e : Device) (l : ℕ) → lookup d t.mutexes ≡ some l → lookup e t.mutexes ≡ some l → d ≡ e

-- The mutex `l` is the device's, and no other device's; asking again gives it again, and changes
-- nothing; no mutex is taken or given back.
pub record IsLockOf (dev : Device) (t : LockTable) (l : ℕ) (t' : LockTable) : Type 0 where
  pub recorded : lookup dev t'.mutexes ≡ some l
  pub again : device_lock dev t' ≡ (l, t')
  pub only : (e : Device) → (e ≡ dev) ⊎ (lookup e t'.mutexes ≢ some l)
  pub others : (e : Device) → (e ≡ dev) ⊎ (lookup e t'.mutexes ≡ lookup e t.mutexes)
  pub held : t'.held ≡ t.held
  pub stuck : t'.stuck ≡ t.stuck

pub no_locks-IsOrderly : IsOrderly no_locks
unfolding lookup
no_locks-IsOrderly = record { below = λ d l h. cc; distinct = λ d e l p q. cc }

either : (d e : Device) → (e ≡ d) ⊎ (e ≢ d)
either d e = elim (device_eq.dec e d) [ yes same ↦ inl same | no other ↦ inr other ]

abbrev created_lock : Device → LockTable → LockTable
created_lock dev t = record t { mutexes = insert dev t.created t.mutexes; created = t.created + 1 }

fresh-other :
    (dev e : Device) (t : LockTable)
    → e ≢ dev
    → lookup e (created_lock dev t).mutexes ≡ lookup e t.mutexes
fresh-other dev e t ne = lookup-insert e dev t.created t.mutexes ∙ ground arith

fresh-own :
    (dev : Device) (t : LockTable) → lookup dev (created_lock dev t).mutexes ≡ some t.created
fresh-own dev t = lookup-insert dev dev t.created t.mutexes ∙ ground arith

some-inj : {a b : ℕ} → some a ≡ some b → a ≡ b
some-inj {a} h = ap (λ (o : Option ℕ). elim o [ none ↦ a | some x ↦ x ]) h

-- An entry is the new one or an old one.
new_or_old :
    (dev d : Device) (t : LockTable) (l : ℕ)
    → lookup d (created_lock dev t).mutexes ≡ some l
    → ((d ≡ dev) × (l ≡ t.created)) ⊎ (lookup d t.mutexes ≡ some l)
new_or_old dev d t l h = elim (either dev d) [
  | inl same ↦ inl (
    same,
    some-inj (sym h ∙ (ap (λ x. lookup x (created_lock dev t).mutexes) same ∙ fresh-own dev t)),
  )
  | inr other ↦ inr (sym (fresh-other dev d t other) ∙ h)
]

one_device :
    (dev d e : Device) (t : LockTable) (l : ℕ)
    → IsOrderly t
    → ((d ≡ dev) × (l ≡ t.created)) ⊎ (lookup d t.mutexes ≡ some l)
    → ((e ≡ dev) × (l ≡ t.created)) ⊎ (lookup e t.mutexes ≡ some l)
    → d ≡ e
one_device dev d e t l v (inl (a, _)) (inl (b, _)) = a ∙ sym b
one_device dev d e t l v (inl (_, is)) (inr old) =
    let small = v.below e l old in absurd (omega (arith, small, is))
one_device dev d e t l v (inr old) (inl (_, is)) =
    let small = v.below d l old in absurd (omega (arith, small, is))
one_device dev d e t l v (inr x) (inr y) = v.distinct d e l x y

created_lock-IsOrderly :
    (dev : Device) (t : LockTable) → IsOrderly t → IsOrderly (created_lock dev t)
created_lock-IsOrderly dev t v = record {
  below = λ d l h. elim (new_or_old dev d t l h) [
    | inl (_, e) ↦ omega (arith, e)
    | inr old ↦ let small = v.below d l old in omega (arith, small)
  ];
  distinct =
      λ d e l p q. one_device dev d e t l v (new_or_old dev d t l p) (new_or_old dev e t l q);
}

found_lock-IsLockOf :
    (dev : Device) (t : LockTable) (o : Option ℕ)
    → IsOrderly t
    → lookup dev t.mutexes ≡ o
    → let (l, t') = found_lock dev o t in IsOrderly t' × IsLockOf dev t l t'
unfolding found_lock device_lock
found_lock-IsLockOf dev t (some l) v e = (
  v,
  record {
    recorded = e;
    again = ap (λ o. found_lock dev o t) e;
    only = λ d. elim (either dev d) [
      | inl same ↦ inl same
      | inr other ↦ inr (λ q. other (v.distinct d dev l q e))
    ];
    others = λ d. inr refl;
    held = refl;
    stuck = refl;
  },
)
found_lock-IsLockOf dev t none v e = (
  created_lock-IsOrderly dev t v,
  record {
    recorded = fresh-own dev t;
    again = ap (λ o. found_lock dev o (created_lock dev t)) (fresh-own dev t);
    only = λ d. elim (either dev d) [
      | inl same ↦ inl same
      | inr other ↦ inr (λ q.
          let small = v.below d t.created (sym (fresh-other dev d t other) ∙ q) in
          absurd (omega (arith, small)))
    ];
    others = λ d. elim (either dev d) [
      | inl same ↦ inl same
      | inr other ↦ inr (fresh-other dev d t other)
    ];
    held = refl;
    stuck = refl;
  },
)

-- For a table in which every mutex was created before and serves one device: `deviceLock` leaves
-- such a table; it returns the mutex that the table then has for the device, and has for no other
-- device; the same call in that table returns the same mutex and changes nothing; the mutexes of
-- the other devices are as before, and no mutex is locked or unlocked.
pub device_lock-IsLockOf :
    (dev : Device) (t : LockTable)
    → IsOrderly t
    → let (l, t') = device_lock dev t in IsOrderly t' × IsLockOf dev t l t'
unfolding device_lock
device_lock-IsLockOf dev t v = found_lock-IsLockOf dev t (lookup dev t.mutexes) v refl

found_lock-keeps :
    (dev e : Device) (t : LockTable) (o : Option ℕ) {k : ℕ}
    → lookup dev t.mutexes ≡ o
    → lookup e t.mutexes ≡ some k
    → lookup e (found_lock dev o t).1.mutexes ≡ some k
unfolding found_lock
found_lock-keeps dev e t (some l) is h = h
found_lock-keeps dev e t none is h = elim (either dev e) [
  | inl same ↦ cc (sym h ∙ (ap (λ d. lookup d t.mutexes) same ∙ is))
  | inr other ↦ fresh-other dev e t other ∙ h
]

-- A device keeps the mutex that it has.
pub device_lock-keeps :
    (dev e : Device) (t : LockTable) {k : ℕ}
    → lookup e t.mutexes ≡ some k
    → lookup e (device_lock dev t).1.mutexes ≡ some k
unfolding device_lock
device_lock-keeps dev e t h = found_lock-keeps dev e t (lookup dev t.mutexes) refl h
