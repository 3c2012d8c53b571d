-- ===== src/Manager/Concurrent/Guarded.antt =====
-- A section of manager.go, from `deviceLock` to the deferred `Unlock`, as a run of one goroutine of
-- `System`.
use omemo_go.Base.{
  ℕ, ◌≡◌, refl, sym, ◌∙◌, ap, subst, fun_ext, none, some, false, nat_eq, Option, [], ◌∷◌, ◌==◌, inl,
  inr, arith, Bool-cases,
}
use omemo_go.Types.{Slice, Device, device_eq, PreKeyRecord}
use omemo_go.Exec.{Result, Exec}
use omemo_go.Store.View.{View, update, consume_found, store_session, store_remote_key}
use omemo_go.Store.Keeps.{IsFrame, Within}
use omemo_go.Signal.Library.{Library}
use omemo_go.Manager.Locks.{LockTable, device_lock, holds, lock, unlock}
use omemo_go.Manager.Locks.Apart.{Spares}
use omemo_go.Manager.State.{Manager, with_device_lock}
use omemo_go.Manager.Sound.{IsSound}
use omemo_go.Manager.Concurrent.{
  Place, System, ask, enter, write_session, write_key, leave, asks, enters, writes_session,
  writes_key, leaves, Runs, idle, moves,
}
use omemo_go.Manager.Concurrent.Invariant.{update_self}

-- What the goroutines share in a world.
abbrev pub snapshot : {W : Type 0} → Manager W → (W → View) → (ℕ → Place) → W → System
snapshot m view places w = record {
  table = m.locks.get w;
  places = places;
  session_of = (view w).session_of;
  remote_key_of = (view w).remote_key_of;
}

-- Nobody holds the mutex of the device.
abbrev pub IsUnlocked : Device → LockTable → Type 0
IsUnlocked dev s = let (l, t) = device_lock dev s in holds t.held l ≡ false

-- A call that runs `body` in the section of a device: the goroutine `i` asks for the mutex and
-- enters, then `body` runs and does to the sessions and identity keys what two writes for that
-- device do, and then the goroutine leaves. `entered` and `left` are the worlds around `body`.
pub record IsGuarded {W A : Type 0} (m : Manager W) (view : W → View) (i : ℕ) (dev : Device)
    (body : Exec W A) (places : ℕ → Place) (w : W) (r : Result A) (w' : W) : Type 0 where
  pub entered : W
  pub left : W
  pub within : ℕ → Place
  pub finally : ℕ → Place
  pub begins :
      Runs i (asks dev ∷ enters ∷ []) (snapshot m view places w) (snapshot m view within entered)
  pub begun : view entered ≡ view w
  pub runs : body entered ≡ (r, left)
  pub writes :
      Runs i
        (writes_session ((view left).session_of dev)
          ∷ writes_key ((view left).remote_key_of dev)
          ∷ [])
        (snapshot m view within entered)
        (snapshot m view within left)
  pub ends : Runs i (leaves ∷ []) (snapshot m view within left) (snapshot m view finally w')
  pub keeps : view w' ≡ view left
  pub is_outside : finally i ≡ Place.outside

-- Of the sessions and the identity keys only those of the device may differ.
pub record OnlyAt (dev : Device) (v v' : View) : Type 0 where
  pub session : (d : Device) → (d == dev) ≡ false → v'.session_of d ≡ v.session_of d
  pub key : (d : Device) → (d == dev) ≡ false → v'.remote_key_of d ≡ v.remote_key_of d

module _ (dev : Device) where
  pub OnlyAt-IsFrame : IsFrame (OnlyAt dev)
  OnlyAt-IsFrame = record {
    same = λ v. record { session = λ d ne. refl; key = λ d ne. refl };
    chain = λ u v w p q. record {
      session = λ d ne. q.session d ne ∙ p.session d ne;
      key = λ d ne. q.key d ne ∙ p.key d ne;
    };
  }

  pub store_session-OnlyAt : (o : Option Slice) (v : View) → OnlyAt dev v (store_session dev o v)
  store_session-OnlyAt o v = record { session = λ d ne. rw ne refl; key = λ d ne. refl }

  pub store_remote_key-OnlyAt : (key : Slice) (v : View) → OnlyAt dev v (store_remote_key dev key v)
  store_remote_key-OnlyAt key v = record { session = λ d ne. refl; key = λ d ne. rw ne refl }

  pub consume_found-OnlyAt :
      (id : ℕ) (o : Option PreKeyRecord) (v : View) → OnlyAt dev v (consume_found id o v).1
  consume_found-OnlyAt id none v = record { session = λ d ne. refl; key = λ d ne. refl }
  consume_found-OnlyAt id (some r) v = record { session = λ d ne. refl; key = λ d ne. refl }

-- A function that differs at one device is the update at that device.
update-differs :
    {A : Type 0} (dev : Device) (f g : Device → A)
    → ((d : Device) → (d == dev) ≡ false → g d ≡ f d)
    → update dev (g dev) f ≡ g
update-differs dev f g same = fun_ext λ d. elim (Bool-cases (d == dev)) [
  | inl here ↦ rw here (ap g (sym (let e : d ≡ dev = ground (arith, here) in e)))
  | inr other ↦ rw other (sym (same d other))
]

module _ {W DR LS LX : Type 0} (lib : Library W DR LS LX) (m : Manager W) (view : W → View)
    (IsValid : W → Type 0) (sound : IsSound lib m view IsValid) where
  -- The bracket of `with_device_lock` around a body that leaves the mutexes alone and writes for
  -- its device only.
  pub with_device_lock-IsGuarded :
      {A : Type 0} (i : ℕ) (dev : Device) (body : Exec W A) (places : ℕ → Place) (w : W)
      → Spares m body
      → Within view IsValid (OnlyAt dev) body
      → places i ≡ Place.outside
      → IsUnlocked dev (m.locks.get w)
      → IsValid w
      → let (r, w') = with_device_lock m dev body w in IsGuarded m view i dev body places w r w'
  unfolding with_device_lock
  with_device_lock-IsGuarded i dev body places w spares only out free v =
      let (l, t) = device_lock dev (m.locks.get w) in
      let w1 = m.locks.put (lock l t) w in
      let (v1, same1) = sound.locks (lock l t) w v in
      let (r, w2) = body w1 in
      let (v2, at_dev) = only.at w1 v1 in
      let (v3, same3) = sound.locks (unlock l (m.locks.get w2)) w2 v2 in
      let waits = update i (Place.waiting dev l) places in
      let inside = update i (Place.inside dev l) waits in
      let is_inside = update_self i (Place.inside dev l) waits in
      let back = update i Place.outside inside in
      record {
        entered = w1;
        left = w2;
        within = inside;
        finally = back;
        begins =
            subst (Runs i (asks dev ∷ enters ∷ []) (snapshot m view places w))
              (λ j. record {
                table = sym (m.locks.get-put (lock l t) w) j;
                places = inside;
                session_of = (sym same1 j).session_of;
                remote_key_of = (sym same1 j).remote_key_of;
              })
              (moves (ask i dev out) refl
                (moves (enter i (update_self i (Place.waiting dev l) places) free) refl idle));
        begun = same1;
        runs = refl;
        writes =
            subst
              (Runs i
                (writes_session ((view w2).session_of dev)
                  ∷ writes_key ((view w2).remote_key_of dev)
                  ∷ [])
                (snapshot m view inside w1))
              (λ j. record {
                table = sym (spares.at w1 tt).1 j;
                places = inside;
                session_of =
                    update-differs dev (view w1).session_of (view w2).session_of at_dev.session j;
                remote_key_of =
                    update-differs dev (view w1).remote_key_of (view w2).remote_key_of at_dev.key j;
              })
              (moves (write_session i ((view w2).session_of dev) is_inside) refl
                (moves (write_key i ((view w2).remote_key_of dev) is_inside) refl idle));
        ends =
            subst (Runs i (leaves ∷ []) (snapshot m view inside w2))
              (λ j. record {
                table = sym (m.locks.get-put (unlock l (m.locks.get w2)) w2) j;
                places = back;
                session_of = (sym same3 j).session_of;
                remote_key_of = (sym same3 j).remote_key_of;
              })
              (moves (leave i is_inside) refl idle);
        keeps = same3;
        is_outside = update_self i Place.outside inside;
      }
