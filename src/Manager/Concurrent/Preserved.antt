-- ===== src/Manager/Concurrent/Preserved.antt =====
-- Every step of a goroutine keeps the invariant.
use omemo_go.Base.{
  ℕ, ◌≡◌, refl, sym, ◌∙◌, ap, subst, ◌≢◌, ◌⊎◌, inl, inr, true, false, arith, Option, ◌∷◌, ◌==◌,
  nat_eq, Bool-cases,
}
use omemo_go.Types.{Slice, Device, device_eq}
use omemo_go.Store.View.{update}
use omemo_go.Manager.Locks.{device_lock, holds, released, lock, unlock}
use omemo_go.Manager.Locks.Unique.{device_lock-IsLockOf, device_lock-keeps, no_locks-IsOrderly}
use omemo_go.Manager.Concurrent.{
  Place, System, Step, ask, enter, write_session, write_key, leave, Steps, here, later, start, move,
}
use omemo_go.Manager.Concurrent.Invariant.{
  NoRepeat, holds-released, released-NoRepeat, Fits, IsValid, update-all, update-cases,
  update-other, update_self, different, equal, Fits-mono, lock-held, unlock-held, holds-cons,
}

module _ (s : System) (v : IsValid s) (i : ℕ) where
  -- `i` calls `deviceLock`.
  ask-IsValid :
      (dev : Device)
      → s.places i ≡ Place.outside
      → IsValid (
          move i
            (Place.waiting dev (device_lock dev s.table).0)
            (record s { table = (device_lock dev s.table).1 }))
  ask-IsValid dev out =
      let (l, t) = device_lock dev s.table in
      let (orderly, is) = device_lock-IsLockOf dev s.table v.orderly in
      record {
        orderly = orderly;
        running = is.stuck ∙ v.running;
        once = subst NoRepeat (sym is.held) v.once;
        fits = update-all (Fits t) i (Place.waiting dev l) s.places is.recorded λ j ne.
            Fits-mono s.table t (s.places j) (λ d k. device_lock-keeps dev d s.table)
              (λ k h. subst (λ ls. holds ls k ≡ true) (sym is.held) h) (v.fits j);
        unique = λ a b d e k p q. v.unique a b d e k (old_inside a d k p) (old_inside b e k q);
        holder = λ k h.
            let (j, d, at) = v.holder k (subst (λ ls. holds ls k ≡ true) is.held h) in
            (
              j,
              d,
              update-other i (Place.waiting dev l) s.places j
                    (λ e. cc (sym (ap s.places e ∙ out) ∙ at))
                  ∙ at,
            );
      }
    where
      old_inside :
          (a : ℕ) (d : Device) (k : ℕ)
          → update i (Place.waiting dev (device_lock dev s.table).0) s.places a ≡ Place.inside d k
          → s.places a ≡ Place.inside d k
      old_inside a d k p =
          elim (update-cases i (Place.waiting dev (device_lock dev s.table).0) s.places a p) [
            | inl (_, e) ↦ cc e
            | inr (_, e) ↦ e
          ]

  -- `i` gets the mutex that it waits for.
  enter-IsValid :
      (dev : Device) (l : ℕ)
      → s.places i ≡ Place.waiting dev l
      → holds s.table.held l ≡ false
      → IsValid (move i (Place.inside dev l) (record s { table = lock l s.table }))
  enter-IsValid dev l at free =
      let e = lock-held l s.table free in
      let p = Place.inside dev l in
      let has_lock : Fits s.table (Place.waiting dev l) = subst (Fits s.table) at (v.fits i) in
      subst (λ t. IsValid (move i p (record s { table = t }))) (sym e)
        (record {
          orderly = record { below = v.orderly.below; distinct = v.orderly.distinct };
          running = v.running;
          once = (free, v.once);
          fits =
              update-all (Fits (record s.table { held = l ∷ s.table.held })) i p s.places
                (has_lock, holds-cons l l s.table.held ∙ ground arith)
                λ j ne.
                  Fits-mono s.table (record s.table { held = l ∷ s.table.held }) (s.places j)
                    (λ d k h. h) (λ k h. holds-cons l k s.table.held ∙ ground arith) (v.fits j);
          unique = λ a b d d' k x y.
              entered a b d d' k (update-cases i p s.places a x) (update-cases i p s.places b y);
          holder = λ k h. holder_after k h;
        })
    where
      not_held : (j : ℕ) (d : Device) → s.places j ≢ Place.inside d l
      not_held j d h =
          let held : Fits s.table (Place.inside d l) = subst (Fits s.table) h (v.fits j) in
          cc (sym held.1 ∙ free)

      entered :
          (a b : ℕ) (d d' : Device) (k : ℕ)
          → ((a ≡ i) × (Place.inside dev l ≡ Place.inside d k))
            ⊎ ((a ≢ i) × (s.places a ≡ Place.inside d k))
          → ((b ≡ i) × (Place.inside dev l ≡ Place.inside d' k))
            ⊎ ((b ≢ i) × (s.places b ≡ Place.inside d' k))
          → a ≡ b
      entered a b d d' k (inl (x, _)) (inl (y, _)) = x ∙ sym y
      entered a b d d' k (inl (_, x)) (inr (_, y)) = absurd (not_held b d' (cc y))
      entered a b d d' k (inr (_, x)) (inl (_, y)) = absurd (not_held a d (cc x))
      entered a b d d' k (inr (_, x)) (inr (_, y)) = v.unique a b d d' k x y

      holder_after :
          (k : ℕ)
          → holds (l ∷ s.table.held) k ≡ true
          → (j : ℕ) × (d : Device) × (update i (Place.inside dev l) s.places j ≡ Place.inside d k)
      holder_after k h = elim (Bool-cases (k == l)) [
        | inl same ↦ (
          i,
          dev,
          update_self i (Place.inside dev l) s.places ∙ ap (Place.inside dev) (sym (equal same)),
        )
        | inr other ↦
            let (j, d, old) = v.holder k (rw other at (sym (holds-cons l k s.table.held) ∙ h)) in
            (
              j,
              d,
              update-other i (Place.inside dev l) s.places j
                    (λ e. cc (sym (ap s.places e ∙ at) ∙ old))
                  ∙ old,
            )
      ]

  -- `i` gives its mutex back.
  leave-IsValid :
      (dev : Device) (l : ℕ)
      → s.places i ≡ Place.inside dev l
      → IsValid (move i Place.outside (record s { table = unlock l s.table }))
  leave-IsValid dev l at =
      let mine : Fits s.table (Place.inside dev l) = subst (Fits s.table) at (v.fits i) in
      subst (λ t. IsValid (move i Place.outside (record s { table = t })))
        (sym (unlock-held l s.table mine.1))
        (record {
          orderly = record { below = v.orderly.below; distinct = v.orderly.distinct };
          running = v.running;
          once = released-NoRepeat s.table.held l v.once;
          fits =
              update-all (Fits (record s.table { held = released s.table.held l })) i Place.outside
                s.places tt λ j ne. others_fit j (s.places j) refl ne (v.fits j);
          unique = λ a b d d' k x y.
              v.unique a b d d' k (inside_before a d k x) (inside_before b d' k y);
          holder = λ k h. holder_after k h;
        })
    where
      others_fit :
          (j : ℕ) (q : Place)
          → s.places j ≡ q
          → j ≢ i
          → Fits s.table q
          → Fits (record s.table { held = released s.table.held l }) q
      others_fit j Place.outside e ne f = tt
      others_fit j (Place.waiting d k) e ne f = f
      others_fit j (Place.inside d k) e ne (f, g) = (
        f,
        elim (Bool-cases (k == l)) [
          | inl same ↦ absurd (ne (v.unique j i d dev l (e ∙ ap (Place.inside d) (equal same)) at))
          | inr other ↦ holds-released s.table.held l k v.once ∙ rw other g
        ],
      )

      inside_before :
          (a : ℕ) (d : Device) (k : ℕ)
          → update i Place.outside s.places a ≡ Place.inside d k
          → s.places a ≡ Place.inside d k
      inside_before a d k h = elim (update-cases i Place.outside s.places a h) [
        | inl (_, e) ↦ cc e
        | inr (_, e) ↦ e
      ]

      holder_after :
          (k : ℕ)
          → holds (released s.table.held l) k ≡ true
          → (j : ℕ) × (d : Device) × (update i Place.outside s.places j ≡ Place.inside d k)
      holder_after k h = elim (Bool-cases (k == l)) [
        | inl same ↦ cc (rw same at (sym (holds-released s.table.held l k v.once) ∙ h))
        | inr other ↦
            let (j, d, old) =
              v.holder k (rw other at (sym (holds-released s.table.held l k v.once) ∙ h)) in
            (
              j,
              d,
              update-other i Place.outside s.places j
                    (λ e. different other (cc (sym (ap s.places e ∙ at) ∙ old)))
                  ∙ old,
            )
      ]

-- Only the content of the store differs.
content-IsValid :
    (s : System) (f g : Device → Option Slice)
    → IsValid s
    → IsValid (record s { session_of = f; remote_key_of = g })
content-IsValid s f g v = record {
  orderly = v.orderly;
  running = v.running;
  once = v.once;
  fits = v.fits;
  unique = v.unique;
  holder = v.holder;
}

Step-IsValid : {s t : System} → Step s t → IsValid s → IsValid t
Step-IsValid {s} (ask i dev out) v = ask-IsValid s v i dev out
Step-IsValid {s} (enter i {dev} {l} at free) v = enter-IsValid s v i dev l at free
Step-IsValid {s} (write_session i {dev} blob at) v =
    content-IsValid s (update dev blob s.session_of) s.remote_key_of v
Step-IsValid {s} (write_key i {dev} key at) v =
    content-IsValid s s.session_of (update dev key s.remote_key_of) v
Step-IsValid {s} (leave i {dev} {l} at) v = leave-IsValid s v i dev l at

start-IsValid : (sessions keys : Device → Option Slice) → IsValid (start sessions keys)
unfolding holds
start-IsValid sessions keys = record {
  orderly = no_locks-IsOrderly;
  running = refl;
  once = tt;
  fits = λ i. tt;
  unique = λ i j d e l p q. cc;
  holder = λ l h. cc h;
}

-- Whatever the goroutines of a new manager do, and in whatever order.
pub Steps-IsValid :
    (sessions keys : Device → Option Slice) {s : System} → Steps (start sessions keys) s → IsValid s
Steps-IsValid sessions keys here = start-IsValid sessions keys
Steps-IsValid sessions keys (later r st) = Step-IsValid st (Steps-IsValid sessions keys r)
