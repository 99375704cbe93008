-- ===== src/Registry/Tests.antt =====
-- The registry after a registration.
use tarsx.Prelude.{◌≡◌, none, [], ◌∷◌, Text}
use tarsx.Registry.{del_servant_address}
use tarsx.Registry.Tables.{add_all, del_servant_address-add_all}

abbrev hello : Text
hello = 104 ∷ 105 ∷ []

abbrev local : Text
local = 49 ∷ 50 ∷ 55 ∷ []

-- The address that was registered just before cannot be deleted.
del_servant_address-add_all_example :
    del_servant_address hello local 80
      (add_all ((hello, local, 80) ∷ []) (record { all_servants = [] }))
    ≡ none
del_servant_address-add_all_example =
    del_servant_address-add_all ((hello, local, 80) ∷ []) hello local 80
