-- ===== src/Rpc/Handler/Laws.antt =====
-- svalin_rpc/src/rpc/command/handler.rs: what the permission check means for a session.
use svalin.Prelude.{◌≡◌, ◌≢◌, refl, ap, ◌∙◌, sym, inl, inr, Option, some, none, List, ◌∷◌, arith}
use svalin.Prelude.Tests.{if◌then◌else◌, Option-cases, Bool-cases}
use svalin.Prelude.Lists.{bytes_eq}
use svalin.Prelude.Result.{Result, ok, err, panicked, Done}
use svalin.Bytes.{Bytes}
use svalin.Rpc.Permission.{PermissionCheckError, PermissionHandler}
use svalin.Rpc.Handler.{
  accept, decline, Session, permission_check_error, Outcome, CommandHandler, write_object,
  read_object, run, answer, handle_with_permission, HandlerCollection, new, add, handle_session,
  respond,
}

answer-changed {ℓ} :
    {W : Type ℓ} (a : Result PermissionCheckError Done) (s : Session) (w : W)
    (k : Session → Outcome W)
    → (answer a s w k).world ≢ w
    → (a ≡ ok tt) × (s' : Session) × (write_object accept s ≡ some s') × (answer a s w k ≡ k s')
answer-changed (ok u) s w k h = elim (Option-cases (write_object accept s)) [
  | inl e ↦ absurd (h (rw (e, respond) refl))
  | inr (s', e) ↦ (refl, s', e, rw (e, respond) refl)
]
answer-changed (err e) s w k h = elim (Option-cases (write_object (decline 403) s)) [
  | inl e' ↦ absurd (h (rw (e', respond) refl))
  | inr (s', e') ↦ absurd (h (rw (e', respond) refl))
]
answer-changed panicked s w k h = absurd (h refl)

-- If handling a session changes the handlers' state, then the request was read, the peer has the
-- permission that the request needs, the acceptance was written, and the outcome is the handler's.
pub handle_with_permission-changed {ℓ} :
    {P R : Type 0} {W : Type ℓ} (h : CommandHandler P R W) (may : PermissionHandler P) (s : Session)
    (w : W)
    → (handle_with_permission h may s w).world ≢ w
    → (r : R) × (s1 : Session) × (s2 : Session) × (read_object h.decode s ≡ some (r, s1))
      × (may s1.peer (h.into_permission r) ≡ ok tt)
      × (write_object accept s1 ≡ some s2)
      × (handle_with_permission h may s w ≡ run h r w s2)
unfolding handle_with_permission
handle_with_permission-changed h may s w changed = elim (Option-cases (read_object h.decode s)) [
  | inl e ↦ absurd (changed (rw (e, handle_with_permission) refl))
  | inr ((r, s1), e) ↦
      let step : handle_with_permission h may s w
          ≡ answer (may s1.peer (h.into_permission r)) s1 w (run h r w) =
        rw (e, handle_with_permission) refl in
      let (a, s2, b, c) =
        answer-changed _ s1 w (run h r w) (λ same. changed (ap (λ o. o.world) step ∙ same)) in
      (r, s1, s2, e, a, b, step ∙ c)
]

-- A request that is read, of a peer without the permission, is declined with 403: the handlers'
-- state is as before and the error is the permission handler's.
pub handle_with_permission-denied {ℓ} :
    {P R : Type 0} {W : Type ℓ} (h : CommandHandler P R W) (may : PermissionHandler P)
    (s s1 s2 : Session) (w : W) (r : R) (e : PermissionCheckError)
    → read_object h.decode s ≡ some (r, s1)
    → may s1.peer (h.into_permission r) ≡ err e
    → write_object (decline 403) s1 ≡ some s2
    → (handle_with_permission h may s w).world ≡ w
      × ((handle_with_permission h may s w).session ≡ some s2)
      × ((handle_with_permission h may s w).result ≡ err (permission_check_error e))
unfolding handle_with_permission
handle_with_permission-denied h may s s1 s2 w r e a b c =
    rw (a, handle_with_permission) (rw (b, answer) (rw (c, respond) (refl, refl, refl)))

-- A command that was added answers for its key, and the other keys keep theirs.
pub handle_session-add {ℓ} :
    {P R : Type 0} {W : Type ℓ} (key k : Bytes) (h : CommandHandler P R W)
    (c : HandlerCollection P W) (s : Session) (w : W)
    → handle_session (add key h c) s k w ≡ (
        if bytes_eq k key
        then handle_with_permission h c.permission_handler s w
        else handle_session c s k w)
unfolding handle_session add
handle_session-add key k h c s w = elim (Bool-cases (bytes_eq k key)) [
  | inl e ↦ rw (e, handle_session) refl
  | inr e ↦ rw (e, handle_session) refl
]

-- The permission that a request under a key needs, in a collection that `add` built.
abbrev pub Requires : Type 0 → Type 0
Requires P = Bytes → Bytes → Option P

abbrev pub require {ℓ} :
    {P R : Type 0} {W : Type ℓ} → Bytes → CommandHandler P R W → Requires P → Requires P
require key h q k b =
    if bytes_eq k key
    then elim (h.decode b) [ none ↦ none | some r ↦ some (h.into_permission r) ]
    else q k b

-- The collections that `new` and `add` build, with what their commands require.
pub data IsBuilt {P : Type 0} {W : Type 0} (may : PermissionHandler P)
    : Requires P → HandlerCollection P W → Type 1 where
  built_new : IsBuilt may (λ _ _. none) (new may)
  built_add :
      {R : Type 0} (key : Bytes) (h : CommandHandler P R W) (q : Requires P)
      (c : HandlerCollection P W)
      → IsBuilt may q c
      → IsBuilt may (require key h q) (add key h c)

read_object-eq-some :
    {R : Type 0} (decode : Bytes → Option R) (s s1 : Session) (r : R)
    → read_object decode s ≡ some (r, s1)
    → (b : Bytes) × (rest : List Bytes) × (s.incoming ≡ b ∷ rest)
      × (decode b ≡ some r)
      × (s.peer ≡ s1.peer)
unfolding read_object
read_object-eq-some decode s s1 r h = ground arith

handle_session-new {ℓ} :
    {P : Type 0} {W : Type ℓ} (may : PermissionHandler P) (s : Session) (key : Bytes) (w : W)
    → (handle_session (new may) s key w).world ≡ w
unfolding handle_session new
handle_session-new may s key w = elim (Option-cases (write_object (decline 404) s)) [
  | inl e ↦ rw (e, respond) refl
  | inr (s', e) ↦ rw (e, respond) refl
]

built-permission_handler :
    {P W : Type 0} (may : PermissionHandler P) (q : Requires P) (c : HandlerCollection P W)
    → IsBuilt may q c
    → c.permission_handler ≡ may
unfolding new add
built-permission_handler may _ _ built_new = refl
built-permission_handler may _ _ (built_add k h q c b) = built-permission_handler may q c b

-- In a collection that `new` and `add` built, a session that changes the handlers' state is one
-- whose peer has the permission that its request needs.
pub handle_session-changed :
    {P W : Type 0} (may : PermissionHandler P) (q : Requires P) (c : HandlerCollection P W)
    (s : Session) (key : Bytes) (w : W)
    → IsBuilt may q c
    → (handle_session c s key w).world ≢ w
    → (b : Bytes) × (rest : List Bytes) × (s.incoming ≡ b ∷ rest)
      × (p : P) × (q key b ≡ some p)
      × (may s.peer p ≡ ok tt)
handle_session-changed may _ _ s key w built_new changed =
    absurd (changed (handle_session-new may s key w))
handle_session-changed may _ _ s key w (built_add k h q c built) changed =
    elim (Bool-cases (bytes_eq key k)) [
      | inl e ↦
          let step : handle_session (add k h c) s key w
              ≡ handle_with_permission h c.permission_handler s w =
            handle_session-add k key h c s w ∙ rw e refl in
          let (r, s1, s2, read, permitted, written, ran) =
            handle_with_permission-changed h c.permission_handler s w
              (λ same. changed (ap (λ o. o.world) step ∙ same)) in
          let (b, rest, first, decoded, same_peer) = read_object-eq-some h.decode s s1 r read in
          (
            b,
            rest,
            first,
            h.into_permission r,
            rw e (rw decoded refl),
            sym (ap (λ m. m s.peer (h.into_permission r)) (built-permission_handler may q c built))
                ∙ ap (λ p. c.permission_handler p (h.into_permission r)) same_peer
                ∙ permitted,
          )
      | inr e ↦
          let step : handle_session (add k h c) s key w ≡ handle_session c s key w =
            handle_session-add k key h c s w ∙ rw e refl in
          rw e (
            handle_session-changed may q c s key w built
              (λ same. changed (ap (λ o. o.world) step ∙ same)))
    ]
