-- ===== src/Server/Monitor/Requests/Identity.antt =====
-- A process runs only as a user whom the registry admitted on the same connection.
use quish.Base.{ℕ, ◌≡◌, refl, sym, ap, ◌∙◌, ◌≢◌, ◌⊎◌, inl, inr, some, List, [], ◌∷◌, unwrap_or}
use quish.Base.Table.{Table}
use quish.Base.Text.{Bytes, codes}
use quish.Auth.Types.{ConnInfo, allow}
use quish.Server.Monitor.{Request, shell, exec, transfer, transfer_write, mkdir, Host, State, init}
use quish.Server.Monitor.Requests.{
  Recv, msg, bad, hung_up, answer_challenge, on_authenticate, on_signal, handle, serve,
}
use quish.Server.Monitor.Requests.Starts.{asks, StartsAs, handle_starts}
use quish.Server.Monitor.Requests.Users.{
  on_verdict-users, answer_challenge-users, on_spawn_login-users, on_spawn_transfer-users,
  on_reap-users, on_close-users,
}

-- The request is an authentication of this connection to which the registry answered `Allow` with
-- this name, on the binding that the request carries.
abbrev pub Admits : ℕ → Bytes → Host → Request → Type 0
Admits c user host (Request.authenticate conn a p b ans) =
    (conn ≡ c)
    × (info : ConnInfo) × (info.channel_binding ≡ b)
    × (host.registry_verdict a info ≡ allow user)
Admits c user host _ = ⊥

-- The request does not close this connection.
abbrev pub Keeps : ℕ → Request → Type 0
Keeps c (Request.close conn) = conn ≢ c
Keeps c _ = Unit {0}

-- No request that the loop still serves closes this connection.
abbrev pub StaysOpen : ℕ → List Recv → Type 0
StaysOpen c [] = Unit {0}
StaysOpen c (hung_up ∷ rs) = Unit {0}
StaysOpen c (bad ∷ rs) = StaysOpen c rs
StaysOpen c (msg host req ∷ rs) = Keeps c req × StaysOpen c rs

-- The connection was admitted under this name, and was not closed since.
abbrev pub Vouched : ℕ → Bytes → List Recv → Type 0
Vouched c user [] = ⊥
Vouched c user (hung_up ∷ rs) = ⊥
Vouched c user (bad ∷ rs) = Vouched c user rs
Vouched c user (msg host req ∷ rs) = (Admits c user host req × StaysOpen c rs) ⊎ Vouched c user rs

handle-users :
    (host : Host) (req : Request) (st : State) (c : ℕ) (user : Bytes)
    → (handle host req st).state.users c ≡ some user
    → ((st.users c ≡ some user) × Keeps c req) ⊎ Admits c user host req
unfolding handle on_authenticate on_signal
handle-users host (Request.authenticate conn a p b ans) st c user h =
    let (resumed, st') = answer_challenge host conn ans st in
    let info : ConnInfo = record {
      peer_addr = unwrap_or (host.parse_addr p) (codes "0.0.0.0:0");
      channel_binding = b;
      challenge = resumed;
    } in
    elim (on_verdict-users host conn c st' (host.registry_verdict a info) user h) [
      | inl e ↦
          inl
            (sym (ap (λ (t : Table Bytes). t c) (answer_challenge-users host conn ans st)) ∙ e, tt)
      | inr (q, v) ↦ inr (q, info, refl, v)
    ]
handle-users host (Request.spawn_shell conn t) st c user h =
    inl (sym (ap (λ (t : Table Bytes). t c) (on_spawn_login-users host conn (shell t) st)) ∙ h, tt)
handle-users host (Request.spawn_exec conn t) st c user h =
    inl (sym (ap (λ (t : Table Bytes). t c) (on_spawn_login-users host conn (exec t) st)) ∙ h, tt)
handle-users host (Request.reap sid) st c user h =
    inl (sym (ap (λ (t : Table Bytes). t c) (on_reap-users host sid st)) ∙ h, tt)
handle-users host (Request.close conn) st c user h =
    let (ne, e) = on_close-users host conn c st user h in inl (e, ne)
handle-users host (Request.signal sid s) st c user h = inl (h, tt)
handle-users host (Request.spawn_transfer conn p) st c user h = inl (
  sym (ap (λ (t : Table Bytes). t c) (on_spawn_transfer-users host conn (transfer p) st)) ∙ h,
  tt,
)
handle-users host (Request.spawn_transfer_write conn p m) st c user h = inl (
  sym (ap (λ (t : Table Bytes). t c) (on_spawn_transfer-users host conn (transfer_write p m) st))
      ∙ h,
  tt,
)
handle-users host (Request.spawn_mkdir conn p m) st c user h =
    inl (
      sym (ap (λ (t : Table Bytes). t c) (on_spawn_transfer-users host conn (mkdir p m) st)) ∙ h,
      tt,
    )

serve-users :
    (rs : List Recv) (st : State) (c : ℕ) (user : Bytes)
    → (serve rs st).1.users c ≡ some user
    → ((st.users c ≡ some user) × StaysOpen c rs) ⊎ Vouched c user rs
unfolding serve
serve-users [] st c user h = inl (h, tt)
serve-users (hung_up ∷ rs) st c user h = inl (h, tt)
serve-users (bad ∷ rs) st c user h = serve-users rs st c user h
serve-users (msg host req ∷ rs) st c user h =
    elim (serve-users rs (handle host req st).state c user h) [
      | inr v ↦ inr (inr v)
      | inl (u, still) ↦ elim (handle-users host req st c user u) [
        | inl (u₀, keeps) ↦ inl (u₀, (keeps, still))
        | inr admitted ↦ inr (inl (admitted, still))
      ]
    ]

-- Whatever requests the worker sends, in whatever order, a process is started as a user only for a
-- connection on which the registry answered `Allow` with that very name, on the channel binding
-- that came with the request, and which was not closed since.
pub serve_starts-Vouched :
    (before : List Recv) (host : Host) (req : Request) (user : Bytes)
    → StartsAs user (handle host req (serve before init).1).effects
    → (c : ℕ) × (asks req ≡ some c) × Vouched c user before
unfolding init
serve_starts-Vouched before host req user h =
    let (c, asked, known) = handle_starts host req (serve before init).1 user h in
    (c, asked, elim (serve-users before init c user known) [ inl (e, _) ↦ absurd (cc) | inr v ↦ v ])
