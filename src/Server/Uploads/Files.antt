-- ===== src/Server/Uploads/Files.antt =====
-- crates/parler-hub/src/server.rs, `PutBlob` and `GetBlob`: the files are left alone.
use parler_protocol.Prelude.{
  ℕ, ◌^◌, Text, ◌≡◌, refl, Bool, not, Option, leb, ltb, Option-cases, inl, inr, choose,
  choose_outcome,
}
use parler_protocol.Store.Blobs.{blob_readable_by, blob_meta}
use parler_protocol.Server.Frames.{Target}
use parler_protocol.Server.State.{Config, Draw, Hub, Authed, ConnState}
use parler_protocol.Server.Windows.{RateKind}
use parler_protocol.Server.RoomRequests.{resolve_target}
use parler_protocol.Server.Sending.{charge_room}
use parler_protocol.Server.Uploads.{handle_put_blob, accept_upload, handle_get_blob, charge_blob}
use parler_protocol.Server.Sending.Files.{Same, SameAt}

accept_upload-files :
    (c : Config) (d : Draw) (me : Authed) (room sha256 : Text) (size : ℕ) (media_type : Option Text)
    (conn : ConnState) (h : Hub)
    → SameAt h (accept_upload c d me room sha256 size media_type conn h).1
accept_upload-files c d me room sha256 size media_type conn h =
    choose (SameAt h) (not (charge_room c room RateKind.blob d.now h).0) _ _ (λ over. refl)
      (λ under. refl)

pub handle_put_blob-files :
    (c : Config) (d : Draw) (permit : Bool) (me : Authed) (target : Target) (sha256 : Text)
    (size : ℕ) (media_type : Option Text) (conn : ConnState) (h : Hub)
    → (handle_put_blob c d permit me target sha256 size media_type conn h).1.1.files ≡ h.files
unfolding handle_put_blob
handle_put_blob-files c d permit me target sha256 size media_type conn h =
    choose (SameAt h) (ltb c.max_blob_bytes size) _ _ (λ t. refl)
      λ f.
        choose (SameAt h) (leb (2 ^ 32) c.max_blob_bytes) _ _ (λ t. refl)
          λ f.
            choose (SameAt h) (not permit) _ _ (λ t. refl)
              λ f.
                choose (SameAt h) (not (charge_blob c me.id d.now h).0) _ _ (λ t. refl)
                  λ f.
                    choose (SameAt h) (ltb c.max_blob_dir_bytes _) _ _ (λ t. refl)
                      λ f.
                        choose_outcome (SameAt h)
                          (resolve_target d me target (charge_blob c me.id d.now h).1.store).0 _ _
                          (λ room. accept_upload-files c d me room sha256 size media_type conn _)
                          (λ e. refl)

pub handle_get_blob-files :
    (d : Draw) (me : Authed) (id : Text) (h : Hub) → (handle_get_blob d me id h).1.files ≡ h.files
unfolding handle_get_blob
handle_get_blob-files d me id h = elim (Option-cases (blob_meta id h.store)) [
  | inl missing ↦ rw (missing, handle_get_blob) refl
  | inr (meta, has) ↦
      rw (has, handle_get_blob)
        (choose (Same h) (not (blob_readable_by id me.id h.store)) _ _ (λ t. refl) (λ f. refl))
]
