-- ===== src/Servants/Answers.antt =====
-- What the example servers do with a request of `ServantProxy`: an id, a method's name and the rest,
-- with colons between them.
use tarsx.Prelude.{
  ℕ, ◌≡◌, ◌≢◌, refl, sym, ap, ◌∙◌, Bool, true, false, none, some, [], ◌∷◌, ◌++◌, append-nil,
  append_assoc, arith, if◌then◌else◌, Text, codes, same_text, same_text_self,
}
use tarsx.Registry.{Registry, add_servant_address}
use tarsx.Servants.{
  Reply, reply, first_part, after_first, less_text, method_of, echo, hello_imp, keep_alive,
  server_imp, node_imp, admin_servant, pieces, split, register_servant, register_imp,
}
use tarsx.Servants.Methods.{dispatch-equal_range}

-- A part of a request.
abbrev pub NoColonText : Text → Type 0
NoColonText [] = Unit
NoColonText (x ∷ xs) = (x ≢ 58) × NoColonText xs

first_part_lem : (xs rest : Text) → NoColonText xs → first_part (xs ++ 58 ∷ rest) ≡ xs
unfolding first_part
first_part_lem [] rest h = refl
first_part_lem (x ∷ xs) rest h = ground (arith, first_part_lem xs rest h.1)

after_first_lem :
    (whole xs rest : Text) → NoColonText xs → after_first whole (xs ++ 58 ∷ rest) ≡ rest
unfolding after_first
after_first_lem whole [] rest h = refl
after_first_lem whole (x ∷ xs) rest h = ground (arith, after_first_lem whole xs rest h.1)

-- A request as the servers get it.
abbrev pub request_of : Text → Text → Text → Text
request_of id method rest = id ++ 58 ∷ (method ++ 58 ∷ rest)

method_of-request_of :
    (id method rest : Text)
    → NoColonText id
    → NoColonText method
    → method_of (request_of id method rest) ≡ method
unfolding method_of
method_of-request_of id method rest h k =
    ap first_part (after_first_lem (request_of id method rest) id (method ++ 58 ∷ rest) h)
    ∙ first_part_lem method rest k

-- The four servers with two names choose by the method's name alone: where it is one of theirs the
-- hello server gives the request back, the server of nodes acknowledges `keepAlive` under the id of
-- the request, the node does nothing, and the administration ends the application on `shutdown`; any
-- other name is -3 with nothing in the buffer. Neither the id nor the name has a colon.
pub imps-dispatch :
    (id method rest : Text)
    → NoColonText id
    → NoColonText method
    → let request = request_of id method rest in
      let unknown : Reply = (reply 3 []) in
      (hello_imp request ≡ (
        if same_text method (codes "test")
        then (reply 0 request)
        else if same_text method (codes "testHello")
        then (reply 0 request)
        else unknown))
      × (server_imp request ≡ (
          if same_text method (codes "keepAlive")
          then (reply 1 (id ++ codes ":I have received"))
          else unknown))
      × (node_imp request ≡ (
          if same_text method (codes "startServer")
          then (reply 0 [])
          else if same_text method (codes "stopServer")
          then (reply 0 [])
          else unknown))
      × (admin_servant request ≡ (
          if same_text method (codes "notify")
          then ((reply 0 []), false)
          else if same_text method (codes "shutdown")
          then ((reply 0 []), true)
          else (unknown, false)))
unfolding hello_imp server_imp node_imp admin_servant echo keep_alive less_text
imps-dispatch id method rest h k =
    let named = method_of-request_of id method rest h k in
    (
      rw named (dispatch-equal_range (codes "test") (codes "testHello") method _ _ _ _ refl),
      rw (named, first_part_lem id (method ++ 58 ∷ rest) h)
          (dispatch-equal_range (codes "keepAlive") (codes "reportVersion") method _ _ _ _ refl
            ∙ either_way),
      rw named
          (dispatch-equal_range (codes "startServer") (codes "stopServer") method _ _ _ _ refl),
      rw named (dispatch-equal_range (codes "notify") (codes "shutdown") method _ _ _ _ refl),
    )
  where
    same_if :
        {A : Type 0} (b c : Bool) (x y : A)
        → (if b then x else if c then y else y) ≡ (if b then x else y)
    same_if true c x y = refl
    same_if false true x y = refl
    same_if false false x y = refl

    either_way :
        (if same_text method (codes "keepAlive")
          then (reply 1 (id ++ codes ":I have received"))
          else if same_text method (codes "reportVersion")
          then (reply 3 [])
          else (reply 3 []))
        ≡ (if same_text method (codes "keepAlive")
            then (reply 1 (id ++ codes ":I have received"))
            else (reply 3 []))
    either_way =
        same_if {A = Reply} (same_text method (codes "keepAlive"))
          (same_text method (codes "reportVersion")) _ _

pieces_cut :
    (piece xs rest : Text)
    → NoColonText xs
    → pieces piece (xs ++ 58 ∷ rest) ≡ (piece ++ xs) ∷ pieces [] rest
unfolding pieces
pieces_cut [] [] rest h = refl
pieces_cut (y ∷ ys) [] rest h = ap (λ p. p ∷ pieces [] rest) (sym (append-nil (y ∷ ys)))
pieces_cut [] (x ∷ xs) rest h = ground (arith, pieces_cut (x ∷ []) xs rest h.1)
pieces_cut (y ∷ ys) (x ∷ xs) rest h =
    ground (arith, pieces_cut (y ∷ (ys ++ x ∷ [])) xs rest h.1, append_assoc (y ∷ ys) (x ∷ []) xs)

pieces_end : (y : ℕ) (ys xs : Text) → NoColonText xs → pieces (y ∷ ys) xs ≡ (y ∷ (ys ++ xs)) ∷ []
unfolding pieces
pieces_end y ys [] h = ap (λ p. (y ∷ p) ∷ []) (sym (append-nil ys))
pieces_end y ys (x ∷ xs) h =
    ground (arith, pieces_end y (ys ++ x ∷ []) xs h.1, append_assoc ys (x ∷ []) xs)

split_cut : (xs rest : Text) → NoColonText xs → split (xs ++ 58 ∷ rest) ≡ xs ∷ pieces [] rest
unfolding split
split_cut [] rest h = pieces_cut [] [] rest h
split_cut (x ∷ xs) rest h = pieces_cut [] (x ∷ xs) rest h

-- A registration as `Communicator` makes it, under an id: the name, the address and the port, which
-- is not empty, have no colon. It is handed to `addServantAddress`, and acknowledged under the id of
-- the request. Where the request ends after the name, the registry faults.
pub register_imp_lem :
    (atoi : Text → ℕ) (id name ip port : Text) (x : ℕ) (r : Registry)
    → NoColonText id
    → NoColonText name
    → NoColonText ip
    → NoColonText (x ∷ port)
    → (register_imp atoi
          (request_of id (codes "registerServant") (name ++ 58 ∷ (ip ++ 58 ∷ (x ∷ port))))
          r
        ≡ some (
          reply 1 (id ++ codes ":registed!"),
          (add_servant_address name ip (atoi (x ∷ port)) r).1,
        ))
      × (register_imp atoi (request_of id (codes "registerServant") name) r ≡ none)
unfolding register_imp register_servant
register_imp_lem atoi id name ip port x r h k l m =
    (rw (whole, same_text_self (codes "registerServant")) refl, cut name k)
  where
    method : NoColonText (codes "registerServant")
    method = ground arith

    last : pieces [] (x ∷ port) ≡ (x ∷ port) ∷ []
    last = unfold pieces in ground (arith, pieces_end x [] port m.1)

    whole :
        split (request_of id (codes "registerServant") (name ++ 58 ∷ (ip ++ 58 ∷ (x ∷ port))))
        ≡ id ∷ codes "registerServant" ∷ name ∷ ip ∷ (x ∷ port) ∷ []
    whole = rw (
      split_cut id (codes "registerServant" ++ 58 ∷ (name ++ 58 ∷ (ip ++ 58 ∷ (x ∷ port)))) h,
      pieces_cut [] (codes "registerServant") (name ++ 58 ∷ (ip ++ 58 ∷ (x ∷ port))) method,
      pieces_cut [] name (ip ++ 58 ∷ (x ∷ port)) k,
      pieces_cut [] ip (x ∷ port) l,
      last,
    )

    cut :
        (n : Text)
        → NoColonText n
        → register_imp atoi (request_of id (codes "registerServant") n) r ≡ none
    cut [] e =
        rw
          (
            split_cut id (codes "registerServant" ++ 58 ∷ []) h,
            pieces_cut [] (codes "registerServant") [] method,
            same_text_self (codes "registerServant"),
          )
          (unfold pieces in refl)
    cut (y ∷ ys) e =
        rw
          (
            split_cut id (codes "registerServant" ++ 58 ∷ (y ∷ ys)) h,
            pieces_cut [] (codes "registerServant") (y ∷ ys) method,
            same_text_self (codes "registerServant"),
          )
          (unfold pieces in ground (arith, pieces_end y [] ys e.1))
