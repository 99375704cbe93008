-- ===== src/Socket/Owned.antt =====
-- The descriptors of a socket that owns them.
use tarsx.Prelude.{
  ℕ, ◌≡◌, refl, sym, ap, ◌∙◌, inl, inr, Bool, true, false, Option, none, some, List, [], ◌∷◌, ◌++◌,
  append-nil, append_assoc, if◌then◌else◌, ◌>>=◌, ◌>>◌, guard, Option-cases, subst, >>=-eq-some,
}
use tarsx.Socket.{
  Socket, construct, close, destruct, init, create, create_socket, Taken, accept_loop, accept,
  Connecting, connected, in_progress, refused, connect, bind,
}

-- What is done with a socket, with the system's answers.
pub data Call : Type 0 where
  inits : Option ℕ → Bool → Call
  creates : Bool → Option ℕ → Call
  accepts : List Taken → Socket → Call
  binds : Bool → Call
  connects : Connecting → Call
  closes : Call

unfoldable pub call : Call → Socket → Option Socket
call (inits fd inet) s = some (init fd true inet s)
call (creates inet answer) s = create_socket inet answer true true s
call (accepts answers listening) s = do (_, s') ← accept answers listening s; some s'
call (binds bound) s = bind bound s
call (connects answer) s = do (_, s') ← connect answer s; some s'
call closes s = some (close s)

unfoldable pub calls : List Call → Socket → Option Socket
calls [] s = some s
calls (x ∷ xs) s = do s' ← call x s; calls xs s'

abbrev pub listed : Option ℕ → List ℕ
listed none = []
listed (some fd) = fd ∷ []

-- The descriptors that a socket is given, in their order.
abbrev pub given_by : Call → List ℕ
given_by (inits fd inet) = listed fd
given_by (creates inet answer) = listed answer
given_by (accepts answers listening) = listed (accept_loop answers)
given_by (binds bound) = []
given_by (connects answer) = []
given_by closes = []

abbrev pub given : List Call → List ℕ
given [] = []
given (x ∷ xs) = given_by x ++ given xs

-- Every descriptor so far was closed or is held, in the order in which they were given.
record Accounts (fds : List ℕ) (s : Socket) : Type 0 where
  owns : s.owner ≡ true
  all : s.closed ++ listed s.fd ≡ fds

closed-close : (s : Socket) → (close s).closed ≡ s.closed ++ listed s.fd
unfolding close
closed-close s = elim (Option-cases s.fd) [
  | inl e ↦ rw (e, close) (sym (append-nil s.closed))
  | inr (fd, e) ↦ rw (e, close) refl
]

fd-close : (s : Socket) → (close s).fd ≡ none
unfolding close
fd-close s = elim (Option-cases s.fd) [ inl e ↦ rw (e, close) e | inr (fd, e) ↦ rw (e, close) refl ]

owner-close : (s : Socket) → (close s).owner ≡ s.owner
unfolding close
owner-close s = elim (Option-cases s.fd) [
  | inl e ↦ rw (e, close) refl
  | inr (fd, e) ↦ rw (e, close) refl
]

-- A closed socket that is given a descriptor, or none.
regiven :
    (fds : List ℕ) (o : Option ℕ) (s : Socket)
    → Accounts fds s
    → (close s).closed ++ listed o ≡ fds ++ listed o
regiven fds o s a = ap (λ xs. xs ++ listed o) (closed-close s ∙ a.all)

Accounts-keeps :
    (fds : List ℕ) (s s' : Socket) → Accounts fds s → some s ≡ some s' → Accounts (fds ++ []) s'
Accounts-keeps fds s s' a e =
    let same : s ≡ s' = cc in
    subst (Accounts (fds ++ [])) same (subst (λ xs. Accounts xs s) (sym (append-nil fds)) a)

closed-init :
    (fd : Option ℕ) (inet : Bool) (s : Socket)
    → s.owner ≡ true
    → (init fd true inet s).closed ≡ (close s).closed
unfolding init
closed-init fd inet s e = owned s.owner e
  where
    owned : (b : Bool) → b ≡ true → (if b then close s else s).closed ≡ (close s).closed
    owned b f = rw f refl

-- A test that was passed.
passed : {A : Type 0} (b : Bool) (o : Option A) (x : A) → (guard b >> o) ≡ some x → o ≡ some x
passed true o x e = e
passed false o x e = cc

accept_free :
    (answers : List Taken) (listening s : Socket)
    → s.fd ≡ none
    → accept answers listening s
      ≡ some (accept_loop answers, record s { fd = accept_loop answers; inet = listening.inet })
unfolding accept
accept_free answers listening s e =
    subst
      (λ (o : Option ℕ).
        (elim o as (λ _. Option (Option ℕ × Socket)) [
          | none ↦
              some
                (accept_loop answers, record s { fd = accept_loop answers; inet = listening.inet })
          | some _ ↦ none
        ])
        ≡ some (accept_loop answers, record s { fd = accept_loop answers; inet = listening.inet }))
      (sym e) refl

accept_held :
    (answers : List Taken) (listening s : Socket) (fd : ℕ)
    → s.fd ≡ some fd
    → accept answers listening s ≡ none
unfolding accept
accept_held answers listening s fd e = rw (e, accept)

Accounts-call :
    (x : Call) (fds : List ℕ) (s s' : Socket)
    → Accounts fds s
    → call x s ≡ some s'
    → Accounts (fds ++ given_by x) s'
unfolding call init create_socket create bind connect
Accounts-call (inits fd inet) fds s s' a e =
    let same : init fd true inet s ≡ s' = cc in
    subst (Accounts (fds ++ listed fd)) same (record {
      owns = unfold init in refl;
      all = ap (λ xs. xs ++ listed fd) (closed-init fd inet s a.owns) ∙ regiven fds fd s a;
    })
Accounts-call (creates inet none) fds s s' a e = cc
Accounts-call (creates inet (some fd)) fds s s' a e =
    let same : record (close s) { fd = some fd; inet = inet } ≡ s' = cc in
    subst (Accounts (fds ++ fd ∷ [])) same
      (record { owns = owner-close s ∙ a.owns; all = regiven fds (some fd) s a })
Accounts-call (accepts answers listening) fds s s' a e = elim (Option-cases s.fd) [
  | inl free ↦
      let (r, f, g) = >>=-eq-some (accept answers listening s) _ e in
      let taken = sym f ∙ accept_free answers listening s free in
      let got : record s { fd = accept_loop answers; inet = listening.inet } ≡ s' = cc in
      subst (Accounts (fds ++ listed (accept_loop answers))) got (record {
        owns = a.owns;
        all =
            ap (λ xs. xs ++ listed (accept_loop answers))
              (sym (append-nil s.closed) ∙ ap (λ o. s.closed ++ listed o) (sym free) ∙ a.all);
      })
  | inr (fd, held) ↦
      let (r, f, g) = >>=-eq-some (accept answers listening s) _ e in
      let fault = accept_held answers listening s fd held in cc
]
Accounts-call (binds bound) fds s s' a e =
    Accounts-keeps fds s s' a
      (passed bound (some s) s' (passed s.inet (guard bound >> some s) s' e))
Accounts-call (connects connected) fds s s' a e =
    let (r, f, g) = >>=-eq-some (guard s.inet >> some (true, s)) _ e in
    let same = passed s.inet (some (true, s)) r f in Accounts-keeps fds s s' a (cc)
Accounts-call (connects in_progress) fds s s' a e =
    let (r, f, g) = >>=-eq-some (guard s.inet >> some (false, s)) _ e in
    let same = passed s.inet (some (false, s)) r f in Accounts-keeps fds s s' a (cc)
Accounts-call (connects refused) fds s s' a e = cc
Accounts-call closes fds s s' a e =
    let same : close s ≡ s' = cc in
    subst (Accounts (fds ++ [])) same (record {
      owns = owner-close s ∙ a.owns;
      all = ap (λ o. (close s).closed ++ listed o) (fd-close s) ∙ regiven fds none s a;
    })

Accounts-calls :
    (xs : List Call) (fds : List ℕ) (s s' : Socket)
    → Accounts fds s
    → calls xs s ≡ some s'
    → Accounts (fds ++ given xs) s'
unfolding calls
Accounts-calls [] fds s s' a e = Accounts-keeps fds s s' a e
Accounts-calls (x ∷ xs) fds s s' a e =
    let (s₁, f, g) = >>=-eq-some (call x s) _ e in
    subst (λ ys. Accounts ys s') (append_assoc fds (given_by x) (given xs))
      (Accounts-calls xs (fds ++ given_by x) s₁ s' (Accounts-call x fds s s₁ a f) g)

closed-destruct : (s : Socket) → s.owner ≡ true → (destruct s).closed ≡ s.closed ++ listed s.fd
unfolding destruct
closed-destruct s e = owned s.owner e
  where
    owned : (b : Bool) → b ≡ true → (if b then close s else s).closed ≡ s.closed ++ listed s.fd
    owned b f = rw f (closed-close s)

-- A new socket that stays the owner of its descriptor, whatever is done with it that does not end
-- the program, has at the end of its life given every descriptor that it was given, by `init`,
-- `createSocket` or `accept`, to `::close` once, in the order in which it got them, and nothing else.
pub destruct-calls :
    (xs : List Call) (s : Socket) → calls xs construct ≡ some s → (destruct s).closed ≡ given xs
unfolding construct
destruct-calls xs s e =
    let a = Accounts-calls xs [] construct s (record { owns = refl; all = refl }) e in
    closed-destruct s a.owns ∙ a.all
