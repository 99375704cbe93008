-- ===== src/Servants/Tests.antt =====
-- Requests with the id "7".
use tarsx.Prelude.{
  ℕ, ◌≡◌, none, some, [], ◌∷◌, ◌++◌, arith, if◌then◌else◌, false, true, Text, codes, same_text,
}
use tarsx.Registry.{Registry, add_servant_address}
use tarsx.Servants.{Reply, reply, hello_imp, server_imp, node_imp, admin_servant, register_imp}
use tarsx.Servants.Answers.{request_of, imps-dispatch, register_imp_lem}

imps-dispatch_example :
    let request = request_of (codes "7") (codes "shutdown") (codes "now") in
    let unknown : Reply = reply 3 [] in
    (hello_imp request ≡ (
      if same_text (codes "shutdown") (codes "test")
      then reply 0 request
      else if same_text (codes "shutdown") (codes "testHello")
      then reply 0 request
      else unknown))
    × (server_imp request ≡ (
        if same_text (codes "shutdown") (codes "keepAlive")
        then reply 1 (codes "7" ++ codes ":I have received")
        else unknown))
    × (node_imp request ≡ (
        if same_text (codes "shutdown") (codes "startServer")
        then reply 0 []
        else if same_text (codes "shutdown") (codes "stopServer")
        then reply 0 []
        else unknown))
    × (admin_servant request ≡ (
        if same_text (codes "shutdown") (codes "notify")
        then (reply 0 [], false)
        else if same_text (codes "shutdown") (codes "shutdown")
        then (reply 0 [], true)
        else (unknown, false)))
imps-dispatch_example =
    imps-dispatch (codes "7") (codes "shutdown") (codes "now") (omega arith) (omega arith)

abbrev empty_registry : Registry
empty_registry = record { all_servants = [] }

abbrev port_of : Text → ℕ
port_of s = 80

register_imp_lem_example :
    (register_imp port_of
        (request_of
          (codes "7")
          (codes "registerServant")
          (codes "test" ++ 58 ∷ (codes "localhost" ++ 58 ∷ codes "80")))
        empty_registry
      ≡ some (
        reply 1 (codes "7" ++ codes ":registed!"),
        (add_servant_address (codes "test") (codes "localhost") 80 empty_registry).1,
      ))
    × (register_imp port_of
          (request_of (codes "7") (codes "registerServant") (codes "test"))
          empty_registry
        ≡ none)
register_imp_lem_example =
    register_imp_lem port_of (codes "7") (codes "test") (codes "localhost") (codes "0") 56
      empty_registry (omega arith) (omega arith) (omega arith) (omega arith)
