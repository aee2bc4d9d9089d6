-- ===== src/Server/Auth/Crash.antt =====
-- When processAuth panics.
use imserver.Prelude.{
  ℕ, ◌*◌, ◌/◌, ◌<◌, ◌≡◌, ◌≢◌, ◌↔◌, refl, ap, ◌∙◌, true, false, List, ◌++◌, length, take, replicate,
  ltb, ◌==◌, some, Bool-cases, Option-cases, inl, inr, arith,
}
use imserver.Proto.Result.{panic}
use imserver.Proto.Types.{ConnectPacket}
use imserver.Okstore.File.{equal, equal→≡, equal_refl, ≡→equal, ≢→equal}
use imserver.Server.ConnManager.{NetConn}
use imserver.Server.Auth.{
  AuthServices, AuthState, device_level_slave, verify_token, get_client_aes_key_and_iv, after_ban,
  after_token, process_auth,
}
use imserver.Server.Auth.Login.{IsReady, after_keys-left}

-- The token of a packet is right: of the manager's user, which may have none; of a user, when tokens
-- are not asked for; or the one of the store.
pub data IsTrusted (svc : AuthServices) (packet : ConnectPacket) : Type 0 where
  manager :
      packet.uid ≡ svc.manager_uid
      → (svc.manager_token_on ≡ true → packet.token ≡ svc.manager_token)
      → IsTrusted svc packet
  free : packet.uid ≢ svc.manager_uid → svc.token_auth_on ≡ false → IsTrusted svc packet
  stored :
      (level : ℕ)
      → packet.uid ≢ svc.manager_uid
      → svc.token_auth_on ≡ true
      → length packet.token ≢ 0
      → svc.get_user_token packet.uid packet.device_flag ≡ some (packet.token, level)
      → IsTrusted svc packet

-- A packet that is let in as far as its key, which is base64 and too short.
pub record IsShortKey (svc : AuthServices) (packet : ConnectPacket) : Type 0 where
  pub shown : svc.is_blank packet.client_key ≡ false
  pub trusted : IsTrusted svc packet
  pub allowed : svc.user_ban packet.uid ≡ some false
  pub bytes : List ℕ
  pub decodes : svc.decode_string packet.client_key ≡ some bytes
  pub short : length packet.client_key < 44

module _ (svc : AuthServices) (packet : ConnectPacket) where
  IsTrusted-passes : IsTrusted svc packet → (level : ℕ × ℕ) × (verify_token svc packet ≡ some level)
  unfolding verify_token
  IsTrusted-passes (manager e t) =
      let same = ≡→equal packet.uid svc.manager_uid e in
      elim (Bool-cases svc.manager_token_on) [
        | inr off ↦ ((device_level_slave, 0), rw (same, off) refl)
        | inl on ↦
            (let right : equal packet.token svc.manager_token ≡ true =
                ≡→equal packet.token svc.manager_token (t on) in
              ((device_level_slave, 0), rw (same, on, right) refl))
      ]
  IsTrusted-passes (free n o) =
      ((device_level_slave, 0), rw (≢→equal packet.uid svc.manager_uid n, o) refl)
  IsTrusted-passes (stored level n o l e) =
      let some_token : (length packet.token == 0) ≡ false = ground arith in
      (
        (level, level),
        rw (≢→equal packet.uid svc.manager_uid n, o, some_token, e, equal_refl packet.token) refl,
      )

  passes_trusted : (level : ℕ × ℕ) → verify_token svc packet ≡ some level → IsTrusted svc packet
  unfolding verify_token
  passes_trusted level h = elim (Bool-cases (equal packet.uid svc.manager_uid)) [
    | inl y ↦ manager (equal→≡ packet.uid svc.manager_uid y) (λ on.
        elim (Bool-cases (equal packet.token svc.manager_token)) [
          | inl right ↦ equal→≡ packet.token svc.manager_token right
          | inr wrong ↦ absurd (ground arith)
        ])
    | inr n ↦ elim (Bool-cases svc.token_auth_on) [
      | inr off ↦ free (λ e. ground (arith, ≡→equal packet.uid svc.manager_uid e)) off
      | inl on ↦ elim (Bool-cases (length packet.token == 0)) [
        | inl e ↦ absurd (ground arith)
        | inr some_token ↦ elim (Option-cases (svc.get_user_token packet.uid packet.device_flag)) [
          | inl e ↦ absurd (ground arith)
          | inr ((token, l), e) ↦ elim (Bool-cases (equal token packet.token)) [
            | inr wrong ↦ absurd (ground arith)
            | inl right ↦
                stored l (λ m. ground (arith, ≡→equal packet.uid svc.manager_uid m)) on
                  (λ z. ground arith) (e ∙ ap (λ t. some (t, l)) (equal→≡ token packet.token right))
          ]
        ]
      ]
    ]
  ]

module _ (svc : AuthServices) (conn : NetConn) (packet : ConnectPacket) (st : AuthState)
    (ready : IsReady st packet.uid conn) where
  ban_panics :
      (level level_i : ℕ)
      → after_ban svc conn packet level level_i st ≡ panic
      → (bytes : List ℕ) × (svc.decode_string packet.client_key ≡ some bytes)
        × (length packet.client_key < 44)
  unfolding after_ban get_client_aes_key_and_iv
  ban_panics level level_i h = elim (Option-cases (svc.decode_string packet.client_key)) [
    | inl e ↦ absurd (ground arith)
    | inr (bytes, e) ↦ elim (Bool-cases (ltb (length packet.client_key / 4 * 3) 32)) [
      | inl y ↦ (bytes, e, ground arith)
      | inr n ↦
          (let key = svc.aes_key_of (take 32 (bytes ++ replicate 32 0)) in
            let (k, st', run, done, closes, conns) =
              after_keys-left svc conn packet level level_i key svc.random_string st ready in
            absurd (ground arith))
    ]
  ]

  panics_short : process_auth svc conn packet st ≡ panic → IsShortKey svc packet
  unfolding process_auth after_token
  panics_short h = elim (Bool-cases (svc.is_blank packet.client_key)) [
    | inl blank ↦ absurd (ground arith)
    | inr shown ↦ elim (Option-cases (verify_token svc packet)) [
      | inl e ↦ absurd (ground arith)
      | inr ((level, level_i), e) ↦ elim (Option-cases (svc.user_ban packet.uid)) [
        | inl b ↦ absurd (ground arith)
        | inr (true, b) ↦ absurd (ground arith)
        | inr (false, b) ↦
            (let (bytes, decodes, short) = ban_panics level level_i (ground arith) in
              record {
                shown = shown;
                trusted = passes_trusted svc packet (level, level_i) e;
                allowed = b;
                bytes = bytes;
                decodes = decodes;
                short = short;
              })
      ]
    ]
  ]

short_panics :
    (svc : AuthServices) (conn : NetConn) (packet : ConnectPacket) (st : AuthState)
    → IsShortKey svc packet
    → process_auth svc conn packet st ≡ panic
unfolding process_auth after_token after_ban get_client_aes_key_and_iv
short_panics svc conn packet st key =
    let (level, passes) = IsTrusted-passes svc packet key.trusted in
    let small : ltb (length packet.client_key / 4 * 3) 32 ≡ true = ground (arith, key.short) in
    rw
      (
        key.shown, passes, after_token, key.allowed, after_ban, get_client_aes_key_and_iv,
        key.decodes, small,
      )
      refl

-- For a connection that is ready, whatever the services answer and whatever the packet says:
-- `processAuth` panics if and only if the client key is not blank, the packet is trusted, its user is
-- not banned, and the key is base64 of fewer than 44 characters.
pub process_auth-panics :
    (svc : AuthServices) (conn : NetConn) (packet : ConnectPacket) (st : AuthState)
    → IsReady st packet.uid conn
    → (process_auth svc conn packet st ≡ panic) ↔ IsShortKey svc packet
process_auth-panics svc conn packet st ready =
    (panics_short svc conn packet st ready, short_panics svc conn packet st)
