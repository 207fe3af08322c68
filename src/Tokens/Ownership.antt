-- ===== src/Tokens/Ownership.antt =====
-- Who owns the authentication code of a token that was moved.
use device_xiaomi_dash_twrp.Prelude.{ℕ, ◌≡◌, ap, sym, subst, ◌++◌, List}
use mathlib.Core.List.{append-nil}
use device_xiaomi_dash_twrp.Blob.{Blob, null_blob, clear}
use device_xiaomi_dash_twrp.Blob.Ownership.{move_assign_empty, clear_empty}
use device_xiaomi_dash_twrp.Tokens.{
  HardwareAuthToken, HmacSharingParameters, moved, move_hardware_auth_token,
  move_sharing_parameters,
}

-- What the destructors of two blobs hand to `delete[]`.
abbrev pub freed_by : Blob → Blob → List (List ℕ)
freed_by a b = (clear a).0 ++ (clear b).0

moved_lem : (b : Blob) → moved b ≡ (b, null_blob)
moved_lem b = rw (move_assign_empty b)

freed_lem : (b : Blob) → freed_by (moved b).0 (moved b).1 ≡ (clear b).0
freed_lem b =
    subst (λ m. freed_by m.0 m.1 ≡ (clear b).0) (sym (moved_lem b))
      (rw clear_empty (append-nil (clear b).0))

-- The token that a move makes is equal to the one it was made of, and the sharing parameters are
-- too; when both objects are destroyed, exactly the blocks are freed that the one alone would have
-- freed, so none is freed twice and none is lost.
pub moves_have_one_owner :
    (t : HardwareAuthToken) (p : HmacSharingParameters)
    → ((move_hardware_auth_token t).0 ≡ t)
      × (freed_by (move_hardware_auth_token t).0.mac (move_hardware_auth_token t).1.mac
          ≡ (clear t.mac).0)
      × ((move_sharing_parameters p).0 ≡ p)
      × (freed_by (move_sharing_parameters p).0.seed (move_sharing_parameters p).1.seed
          ≡ (clear p.seed).0)
unfolding move_hardware_auth_token move_sharing_parameters
moves_have_one_owner t p = (
  ap (λ m. record t { mac = m }) (ap (λ m. m.0) (moved_lem t.mac)),
  freed_lem t.mac,
  ap (λ m. record p { seed = m }) (ap (λ m. m.0) (moved_lem p.seed)),
  freed_lem p.seed,
)
