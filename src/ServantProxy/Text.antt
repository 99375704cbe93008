-- ===== src/ServantProxy/Text.antt =====
-- The server's view of a request.
use tarsx.Prelude.{◌≡◌, refl, ap, none, some, List, [], ◌∷◌, ◌++◌, arith}
use tarsx.Buffer.{Byte}
use tarsx.ObjectProxy.Answer.{NoColon, before_colon_lem}
use tarsx.ServantProxy.{request_text, after_colon, parse_request}

after_colon_lem :
    (whole xs rest : List Byte) → NoColon xs → after_colon whole (xs ++ some 58 ∷ rest) ≡ rest
unfolding after_colon
after_colon_lem whole [] rest h = refl
after_colon_lem whole (none ∷ xs) rest h = after_colon_lem whole xs rest h
after_colon_lem whole (some x ∷ xs) rest h = ground (arith, after_colon_lem whole xs rest h.1)

-- The server finds the function's name in the request that `tars_invoke` made and `sendReqMessage`
-- numbered, where neither the id nor the name has a colon in it.
pub parse_request-request_text :
    (id func_name request : List Byte)
    → NoColon id
    → NoColon func_name
    → parse_request (id ++ some 58 ∷ request_text func_name request)
      ≡ (request_text func_name request, func_name)
unfolding parse_request request_text
parse_request-request_text id func_name request h k =
    rw
      (after_colon_lem (id ++ some 58 ∷ (func_name ++ some 58 ∷ request)) id
        (func_name ++ some 58 ∷ request) h)
      (ap (λ x. (func_name ++ some 58 ∷ request, x)) (before_colon_lem func_name request k))
