-- ===== src/Tests/Rotation.antt =====
-- Bob rotates his signed prekey, once and twice.
use omemo_go.Base.{◌≡◌, refl, none, some, [], ◌∷◌}
use omemo_go.Types.{v2}
use omemo_go.Exec.{ok}
use omemo_go.Manager.State.{Manager}
use omemo_go.Manager.Prekeys.{rotate_signed_prekey}
use omemo_go.Manager.Prekeys.Rotation.{
  id_after, rotate_signed_prekey-held, rotate_signed_prekey-forgets,
}
use omemo_go.Manager.Incoming.{signed_prekey_by_id}
use omemo_go.Manager.Incoming.Lookup.{held, answer, Answers, signed_prekey_by_id-Answers}
use omemo_go.Manager.Prekeys.Grace.{rotate_signed_prekey-Serves}
use omemo_go.Manager.Incoming.Opened.{Serves}
use omemo_go.Tests.Agreeing.{Same}
use omemo_go.Tests.Delivery.{bob_bundle-Serves}
use omemo_go.Tests.Toy.{World, toy}
use omemo_go.Tests.World.{
  bob_bundle, manager, manager-IsSound, see, IsGood, bob, bob_world, bob_world-IsGood, runs,
}

abbrev owner : Manager World
owner = manager v2 bob none

abbrev rotated : World
rotated = (rotate_signed_prekey toy owner bob_world).1

abbrev rotated_twice : World
rotated_twice = (rotate_signed_prekey toy owner rotated).1

first_rotation : rotate_signed_prekey toy owner bob_world ≡ (ok tt, rotated)
unfolding runs
first_rotation = refl

second_rotation : rotate_signed_prekey toy owner rotated ≡ (ok tt, rotated_twice)
unfolding runs
second_rotation = refl

has_public : (see bob_world).current.public ≡ some (7 ∷ [])
unfolding runs
has_public = refl

next_has_public : (see rotated).current.public ≡ some (50 ∷ [])
unfolding runs
next_has_public = refl

rotate_signed_prekey-held_example :
    IsGood rotated
    × (held (see rotated) 1 ≡ some (see bob_world).current)
    × (held (see rotated) (id_after 1) ≡ some (see rotated).current)
rotate_signed_prekey-held_example =
    rotate_signed_prekey-held toy owner see IsGood (manager-IsSound v2 bob) bob_world-IsGood
      has_public first_rotation

rotate_signed_prekey-forgets_example : held (see rotated_twice) 1 ≡ none
rotate_signed_prekey-forgets_example =
    rotate_signed_prekey-forgets toy owner see IsGood (manager-IsSound v2 bob) bob_world-IsGood
      first_rotation next_has_public second_rotation

signed_prekey_by_id-Answers_example :
    Answers owner.store see bob_world
      (answer 1 (held (see bob_world) 1))
      (signed_prekey_by_id owner 1 bob_world)
signed_prekey_by_id-Answers_example =
    signed_prekey_by_id-Answers toy owner see IsGood (manager-IsSound v2 bob) 1 bob_world
      bob_world-IsGood

rotate_signed_prekey-Serves_example : Serves toy Same owner.identity_key (see rotated) bob_bundle
rotate_signed_prekey-Serves_example =
    rotate_signed_prekey-Serves toy owner see IsGood (manager-IsSound v2 bob) Same bob_bundle
      bob_world-IsGood has_public refl bob_bundle-Serves first_rotation
