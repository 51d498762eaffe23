-- ===== src/Startup/Reader.antt =====
-- src/main.c: `InitializeSysLogReader`, over the calls that it makes on the socket.
use pmlogdaemon.Base.{
  arith, ℕ, ◌≡◌, ◌⊎◌, inl, inr, refl, sym, ap, ◌∙◌, Bool, true, false, Option, none, some, Bytes,
  take, ◌==◌, if◌then◌else◌, Bool-cases, Option-cases,
}

-- `socket`, `bind`, `chmod`, `g_io_channel_unix_new`, `g_io_add_watch`, `close` and
-- `g_main_loop_quit`. The first four may fail.
pub record Sockets (S : Type 0) : Type 0 where
  pub socket : S → Option ℕ × S
  pub bind : ℕ → Bytes → S → Bool × S
  pub chmod : Bytes → S → Bool × S
  pub channel_new : ℕ → S → Bool × S
  pub add_watch : ℕ → S → S
  pub close : ℕ → S → S
  pub main_loop_quit : S → S

-- `sizeof(sunx.sun_path) - 1`
abbrev pub sun_path_room : ℕ
sun_path_room = 107

module _ {S : Type 0} (k : Sockets S) where
  -- The end of an error path.
  unfoldable pub give_up : ℕ → S → S
  give_up fd s = k.main_loop_quit (k.close fd s)

  -- `InitializeSysLogReader`; its result is always FALSE. The reference to the channel is handed to
  -- the watch.
  unfoldable pub initialize_sys_log_reader : Bytes → S → S
  unfolding give_up
  initialize_sys_log_reader path_log s =
      let (sock_fd, s₁) = k.socket s in
      elim sock_fd [
        | none ↦ k.main_loop_quit s₁
        | some fd ↦
            (let (bound, s₂) = k.bind fd (take sun_path_room path_log) s₁ in
              let (changed, s₃) = k.chmod path_log s₂ in
              let (made, s₄) = k.channel_new fd s₃ in
              if bound
              then if changed
                then if made then k.add_watch fd s₄ else give_up fd s₄
                else give_up fd s₃
              else give_up fd s₂)
      ]

-- What is seen of a process: its open descriptors, those that the main loop watches, and whether the
-- loop is told to end.
pub record View : Type 0 where
  pub opened : ℕ → Bool
  pub watched : ℕ → Bool
  pub quitting : Bool

abbrev pub set_at : ℕ → Bool → (ℕ → Bool) → ℕ → Bool
set_at fd b f i = if i == fd then b else f i

-- The documentation of the calls: a new socket has a descriptor that was not open, `close` closes it,
-- and no other call opens or closes one.
pub record SocketLaws {S : Type 0} (k : Sockets S) (view : S → View) : Type 0 where
  pub socket_new :
      (s : S) (fd : ℕ)
      → (k.socket s).0 ≡ some fd
      → ((view s).opened fd ≡ false)
        × (view (k.socket s).1 ≡ record (view s) { opened = set_at fd true (view s).opened })
  pub socket_fails : (s : S) → (k.socket s).0 ≡ none → view (k.socket s).1 ≡ view s
  pub bind_view : (fd : ℕ) (p : Bytes) (s : S) → view (k.bind fd p s).1 ≡ view s
  pub chmod_view : (p : Bytes) (s : S) → view (k.chmod p s).1 ≡ view s
  pub channel_view : (fd : ℕ) (s : S) → view (k.channel_new fd s).1 ≡ view s
  pub watch_view :
      (fd : ℕ) (s : S)
      → view (k.add_watch fd s) ≡ record (view s) { watched = set_at fd true (view s).watched }
  pub close_view :
      (fd : ℕ) (s : S)
      → view (k.close fd s) ≡ record (view s) { opened = set_at fd false (view s).opened }
  pub quit_view : (s : S) → view (k.main_loop_quit s) ≡ record (view s) { quitting = true }

-- A new descriptor is open and watched, and nothing else has changed; or the loop is told to end and
-- every descriptor is as it was.
pub record Listens (before after : View) (fd : ℕ) : Type 0 where
  pub fresh : before.opened fd ≡ false
  pub opened : (i : ℕ) → after.opened i ≡ set_at fd true before.opened i
  pub watched : (i : ℕ) → after.watched i ≡ set_at fd true before.watched i
  pub quitting : after.quitting ≡ before.quitting

pub record GivesUp (before after : View) : Type 0 where
  pub opened : (i : ℕ) → after.opened i ≡ before.opened i
  pub watched : (i : ℕ) → after.watched i ≡ before.watched i
  pub quitting : after.quitting ≡ true

closed_again : (fd i : ℕ) (f : ℕ → Bool) → f fd ≡ false → set_at fd false (set_at fd true f) i ≡ f i
closed_again fd i f h = elim (Bool-cases (i == fd)) [
  | inl same ↦ let is : i ≡ fd = ground (arith, same) in rw (same, is) (sym h)
  | inr other ↦ rw other refl
]

module _ {S : Type 0} (k : Sockets S) (view : S → View) (laws : SocketLaws k view) where
  give_up-GivesUp :
      (before : View) (fd : ℕ) (s : S)
      → before.opened fd ≡ false
      → view s ≡ record before { opened = set_at fd true before.opened }
      → GivesUp before (view (give_up k fd s))
  unfolding give_up
  give_up-GivesUp before fd s fresh e =
      let seen =
        laws.quit_view (k.close fd s)
        ∙ ap (λ (v : View). record v { quitting = true }) (laws.close_view fd s)
        ∙ ap (λ (v : View). record v { opened = set_at fd false v.opened; quitting = true }) e in
      record {
        opened = λ i. ap (λ v. v.opened i) seen ∙ closed_again fd i before.opened fresh;
        watched = λ i. ap (λ v. v.watched i) seen;
        quitting = ap (λ v. v.quitting) seen;
      }

  -- `InitializeSysLogReader`, where its calls do as documented, and whichever of them fail: either a new socket is open and watched, and
  -- nothing else has changed, or the main loop is told to end, and every descriptor is as it was.
  pub initialize_sys_log_reader-Listens :
      (path_log : Bytes) (s : S)
      → ((fd : ℕ) × Listens (view s) (view (initialize_sys_log_reader k path_log s)) fd)
        ⊎ GivesUp (view s) (view (initialize_sys_log_reader k path_log s))
  unfolding initialize_sys_log_reader
  initialize_sys_log_reader-Listens path_log s = elim (Option-cases (k.socket s).0) [
    | inl refused ↦
        let seen =
          laws.quit_view (k.socket s).1
          ∙ ap (λ (v : View). record v { quitting = true }) (laws.socket_fails s refused) in
        rw (initialize_sys_log_reader, refused)
          (inr (record {
            opened = λ i. ap (λ v. v.opened i) seen;
            watched = λ i. ap (λ v. v.watched i) seen;
            quitting = ap (λ v. v.quitting) seen;
          }))
    | inr (fd, given) ↦
        let (fresh, e₁) = laws.socket_new s fd given in
        let s₁ = (k.socket s).1 in
        let path = take sun_path_room path_log in
        let s₂ = (k.bind fd path s₁).1 in
        let s₃ = (k.chmod path_log s₂).1 in
        let s₄ = (k.channel_new fd s₃).1 in
        let e₂ = laws.bind_view fd path s₁ ∙ e₁ in
        let e₃ = laws.chmod_view path_log s₂ ∙ e₂ in
        let e₄ = laws.channel_view fd s₃ ∙ e₃ in
        elim (Bool-cases (k.bind fd path s₁).0) [
          | inr failed ↦
              rw (initialize_sys_log_reader, given, failed)
                (inr (give_up-GivesUp (view s) fd s₂ fresh e₂))
          | inl bound ↦ elim (Bool-cases (k.chmod path_log s₂).0) [
            | inr failed ↦
                rw (initialize_sys_log_reader, given, bound, failed)
                  (inr (give_up-GivesUp (view s) fd s₃ fresh e₃))
            | inl changed ↦ elim (Bool-cases (k.channel_new fd s₃).0) [
              | inr failed ↦
                  rw (initialize_sys_log_reader, given, bound, changed, failed)
                    (inr (give_up-GivesUp (view s) fd s₄ fresh e₄))
              | inl made ↦
                  let seen =
                    laws.watch_view fd s₄
                    ∙ ap (λ (v : View). record v { watched = set_at fd true v.watched }) e₄ in
                  rw (initialize_sys_log_reader, given, bound, changed, made)
                    (inl (
                      fd,
                      record {
                        fresh = fresh;
                        opened = λ i. ap (λ v. v.opened i) seen;
                        watched = λ i. ap (λ v. v.watched i) seen;
                        quitting = ap (λ v. v.quitting) seen;
                      },
                    ))
            ]
          ]
        ]
  ]
