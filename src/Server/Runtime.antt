-- ===== src/Server/Runtime.antt =====
-- What the relay server takes from tokio, and the text that derive_more generates for `Status`.
use nexalink_tunnel.Common.{◌≡◌, ◌≢◌, Bool, true, List, [], ◌∷◌, ◌++◌, ℕ}
use nexalink_tunnel.External.{Bytes}
use nexalink_tunnel.Protos.Message.{Status}

-- The outcomes of `mpsc::Sender::try_send`.
pub data Sent : Type 0 where
  sent full closed : Sent

pub record Runtime : Type 1 where
  -- `mpsc::Sender`, with the messages that wait in its channel, and `mpsc::channel`.
  pub Sender : Type 0 → Type 0
  pub queued : {A : Type 0} → Sender A → List A
  pub channel : {A : Type 0} → ℕ → Sender A
  pub queued-channel : {A : Type 0} (capacity : ℕ) → queued (channel {A = A} capacity) ≡ []
  -- `try_send` appends the message, or the channel is as before.
  pub try_send : {A : Type 0} → Sender A → A → Sent × Sender A
  pub try_send-sent :
      {A : Type 0} (q : Sender A) (a : A)
      → (try_send q a).0 ≡ sent
      → queued (try_send q a).1 ≡ queued q ++ (a ∷ [])
  pub try_send-refused :
      {A : Type 0} (q : Sender A) (a : A)
      → (try_send q a).0 ≢ sent
      → queued (try_send q a).1 ≡ queued q
  -- `CancellationToken`.
  pub Token : Type 0
  pub new_token : Token
  pub cancel : Token → Token
  pub is_cancelled : Token → Bool
  pub is_cancelled-cancel : (token : Token) → is_cancelled (cancel token) ≡ true
  -- `Status::to_string`.
  pub status_to_string : Status → Bytes
