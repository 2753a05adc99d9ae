-- ===== src/Protos/Handshake/Signs.antt =====
-- What a client signs, whatever relay it talks to.
use nexalink_tunnel.Common.{
  ◌≡◌, refl, sym, subst, ◌∙◌, List, [], ◌∷◌, ◌++◌, Result, ok, err, panic, Bool-cases, inl, inr,
  ◌⊎◌,
}
use nexalink_tunnel.External.{Bytes, Crates}
use nexalink_tunnel.Protos.Frame.{
  FrameType, server_challenge, client_auth, server_confirms_auth, server_denies_auth, write_to,
}
use nexalink_tunnel.Protos.Handshake.{
  ServerChallenge, HandshakeCrates, Error, Incoming, received, broken, Sending, delivered,
  send_failed, flush_failed, Io, and_then, is_type, send_bytes, deserialize_frame, write_frame,
  take_incoming, read_frame, new_client_auth, answer, conclude, clientside,
}

module _ (x : Crates) (h : HandshakeCrates) where
  -- What was sent after a step: nothing, or one frame with an answer to a challenge.
  abbrev pub Signs : h.SecretKey → List Bytes → List Bytes → Type 0
  Signs secret_key before after =
      (after ≡ before)
      ⊎ ((challenge : ServerChallenge) × (after
            ≡ before
              ++ ((write_to x client_auth []
                    ++ h.auth_to_bytes (new_client_auth x h secret_key challenge))
                  ∷ [])))

  read_frame-out :
      (expected : List FrameType) (io : Io) → (read_frame x h expected io).0.out ≡ io.out
  unfolding read_frame take_incoming
  read_frame-out expected io = go io io.incoming
    where
      go : (io : Io) (l : List Incoming) → (take_incoming x h io l expected).0.out ≡ io.out
      go io [] = refl
      go io (broken ∷ rest) = refl
      go io (received payload ∷ rest) = refl

  write_frame-out :
      (t : FrameType) (payload : Bytes) (io : Io)
      → ((write_frame x h t payload io).0.out ≡ io.out)
        ⊎ ((write_frame x h t payload io).0.out ≡ io.out ++ ((write_to x t [] ++ payload) ∷ []))
  unfolding write_frame send_bytes
  write_frame-out t payload io = go io io.sendings
    where
      go :
          (io : Io) (l : List Sending)
          → ((send_bytes io l (write_to x t [] ++ payload)).0.out ≡ io.out)
            ⊎ ((send_bytes io l (write_to x t [] ++ payload)).0.out
                ≡ io.out ++ ((write_to x t [] ++ payload) ∷ []))
      go io [] = inr refl
      go io (delivered ∷ rest) = inr refl
      go io (send_failed ∷ rest) = inl refl
      go io (flush_failed ∷ rest) = inr refl

  and_then-out :
      {A B : Type 0} (m : Io × Result Error A) (f : A → Io → Io × Result Error B)
      → ((a : A) (io : Io) → (f a io).0.out ≡ io.out)
      → (and_then m f).0.out ≡ m.0.out
  and_then-out (io, ok a) f k = k a io
  and_then-out (io, err e) f k = refl
  and_then-out (io, panic) f k = refl

  and_then-Signs :
      {A B : Type 0} (s : h.SecretKey) (before : List Bytes) (m : Io × Result Error A)
      (f : A → Io → Io × Result Error B)
      → m.0.out ≡ before
      → ((a : A) (io : Io) → Signs s io.out (f a io).0.out)
      → Signs s before (and_then m f).0.out
  and_then-Signs s before (io, ok a) f e k = subst (λ l. Signs s l (f a io).0.out) e (k a io)
  and_then-Signs s before (io, err r) f e k = inl e
  and_then-Signs s before (io, panic) f e k = inl e

  respond : h.SecretKey → ServerChallenge → Io → Io × Result Error (FrameType × Bytes)
  respond s challenge io =
      and_then (write_frame x h client_auth (h.auth_to_bytes (new_client_auth x h s challenge)) io)
        (λ _ io. read_frame x h (server_confirms_auth ∷ server_denies_auth ∷ []) io)

  respond-Signs :
      (s : h.SecretKey) (challenge : ServerChallenge) (io : Io)
      → Signs s io.out (respond s challenge io).0.out
  unfolding respond
  respond-Signs s challenge io =
      let payload = h.auth_to_bytes (new_client_auth x h s challenge) in
      let same =
        and_then-out (write_frame x h client_auth payload io)
          (λ _ io. read_frame x h (server_confirms_auth ∷ server_denies_auth ∷ []) io)
          (λ _ io. read_frame-out (server_confirms_auth ∷ server_denies_auth ∷ []) io) in
      elim (write_frame-out client_auth payload io) [
        | inl none_sent ↦ inl (same ∙ none_sent)
        | inr one_sent ↦ inr (challenge, same ∙ one_sent)
      ]

  answer-Signs :
      (s : h.SecretKey) (first : FrameType × Bytes) (io : Io)
      → Signs s io.out (answer x h s first io).0.out
  unfolding answer respond
  answer-Signs s (tag, frame) io = elim (Bool-cases (is_type tag server_challenge)) [
    | inl is ↦ rw (is) (
        and_then-Signs s io.out
          (io, deserialize_frame server_challenge (h.challenge_from_bytes frame)) (respond s) refl
          (respond-Signs s))
    | inr other ↦ rw (other) (inl refl)
  ]

  -- Whatever a relay sends it, a client sends nothing, or one frame that has its key and a signature of the key that is
  -- derived from a challenge: it signs nothing else.
  pub clientside-Signs :
      (secret_key : h.SecretKey) (io : Io)
      → Signs secret_key io.out (clientside x h secret_key io).0.out
  unfolding clientside
  clientside-Signs secret_key io =
      and_then-Signs secret_key io.out
        (read_frame x h (server_challenge ∷ server_confirms_auth ∷ server_denies_auth ∷ []) io) _
        (read_frame-out (server_challenge ∷ server_confirms_auth ∷ server_denies_auth ∷ []) io)
        (λ first io'.
          subst (Signs secret_key io'.out)
            (sym (
              and_then-out (answer x h secret_key first io')
                (λ last i. (i, conclude x h last.0 last.1)) (λ last i. refl)))
            (answer-Signs secret_key first io'))
