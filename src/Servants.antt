-- ===== src/Servants.antt =====
-- The functions that the example servers register: tarsx/HelloImp.hpp, tarsx/ServerImp.hpp,
-- tarsx/NodeImp.hpp, tarsx/AdminF.h and tarsx/RegistryImp.hpp. A request is read as its characters.
pub mod Methods
pub mod Answers
mod Tests
use tarsx.Prelude.{
  ℕ, zero, suc, ◌+◌, Bool, true, false, Option, none, some, List, [], ◌∷◌, ◌++◌, ◌==◌, ltb,
  if◌then◌else◌, get_elem?, Text, codes, same_text, ◌>>=◌, not,
}
use tarsx.Registry.{Registry, add_servant_address}

-- What a function returns, 3 for -3 and 1 for -1, and its `buffer`.
pub record Reply : Type 0 where
  pub ret : ℕ
  pub buffer : Text

abbrev pub reply : ℕ → Text → Reply
reply ret buffer = record { ret = ret; buffer = buffer }

-- `s.substr(0, s.find(":"))`; a colon is 58.
unfoldable pub first_part : Text → Text
first_part [] = []
first_part (x ∷ xs) = let rest = x ∷ first_part xs in if x == 58 then [] else rest

-- `s.substr(s.find(":") + 1)`: all of `s` where there is no colon, since `npos + 1` is 0.
unfoldable pub after_first : Text → Text → Text
after_first whole [] = whole
after_first whole (x ∷ xs) = let rest = after_first whole xs in if x == 58 then xs else rest

-- `<` of two strings.
unfoldable pub less_text : Text → Text → Bool
less_text [] [] = false
less_text [] (y ∷ ys) = true
less_text (x ∷ xs) [] = false
less_text (x ∷ xs) (y ∷ ys) =
    let rest = less_text xs ys in if ltb x y then true else if ltb y x then false else rest

abbrev pub one_if : Bool → ℕ
one_if true = 1
one_if false = 0

-- `std::equal_range` over the two names `a` and `b`, as positions: behind the names that are less,
-- and behind those that are not greater.
unfoldable pub equal_range : Text → Text → Text → ℕ × ℕ
equal_range a b m = (
  one_if (less_text a m) + one_if (less_text b m),
  one_if (not (less_text m a)) + one_if (not (less_text m b)),
)

-- `r.first == r.second`, and otherwise the `switch` over `r.first`.
unfoldable pub dispatch {ℓ} : {A : Type ℓ} → ℕ × ℕ → A → A → A → A → A
dispatch r unknown case0 case1 past =
    if r.0 == r.1 then unknown else if r.0 == 0 then case0 else if r.0 == 1 then case1 else past

-- The method of a request, as `HelloImp` and `parseRequest` find it.
unfoldable pub method_of : Text → Text
method_of request = first_part (after_first request request)

-- `test` and `testHello`: the response that they make is not used.
unfoldable pub echo : Text → Reply
echo req = reply 0 req

unfoldable pub hello_imp : Text → Reply
hello_imp request =
    dispatch (equal_range (codes "test") (codes "testHello") (method_of request)) (reply 3 [])
      (echo request) (echo request) (reply 0 [])

-- `keepAlive` of ServerImp.hpp.
unfoldable pub keep_alive : Text → Reply
keep_alive req = reply 1 (first_part req ++ codes ":I have received")

unfoldable pub server_imp : Text → Reply
server_imp request =
    dispatch (equal_range (codes "keepAlive") (codes "reportVersion") (method_of request))
      (reply 3 []) (keep_alive request) (reply 3 []) (reply 0 [])

unfoldable pub node_imp : Text → Reply
node_imp request =
    dispatch (equal_range (codes "startServer") (codes "stopServer") (method_of request))
      (reply 3 []) (reply 0 []) (reply 0 []) (reply 0 [])

-- `AdminServant`, and whether it ends the application.
unfoldable pub admin_servant : Text → Reply × Bool
admin_servant request =
    dispatch (equal_range (codes "notify") (codes "shutdown") (method_of request))
      ((reply 3 []), false) ((reply 0 []), false) ((reply 0 []), true) ((reply 0 []), false)

-- The pieces between the colons of a request; one at the end that is empty is none.
unfoldable pub pieces : Text → Text → List Text
pieces [] [] = []
pieces (y ∷ ys) [] = (y ∷ ys) ∷ []
pieces piece (x ∷ xs) =
    let cut = piece ∷ pieces [] xs in
    let on = pieces (piece ++ x ∷ []) xs in if x == 58 then cut else on

unfoldable pub split : Text → List Text
split [] = [] ∷ []
split (x ∷ xs) = pieces [] (x ∷ xs)

-- `registerServant`. A piece that is missing is the fault.
unfoldable pub register_servant : (Text → ℕ) → List Text → Registry → Option (Reply × Registry)
register_servant atoi v r = do
  name ← get_elem? v 2
  ip ← get_elem? v 3
  port ← get_elem? v 4
  id ← get_elem? v 0
  some ((reply 1 (id ++ codes ":registed!")), (add_servant_address name ip (atoi port) r).1)

unfoldable pub register_imp : (Text → ℕ) → Text → Registry → Option (Reply × Registry)
register_imp atoi request r = do
  method ← get_elem? (split request) 1
  let registered = register_servant atoi (split request) r
  (if same_text method (codes "registerServant")
      then registered
      else if same_text method (codes "deleteServant")
      then some ((reply 1 []), r)
      else some ((reply 3 []), r))
