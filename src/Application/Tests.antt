-- ===== src/Application/Tests.antt =====
-- The hello server.
use tarsx.Prelude.{◌+◌, ◌≡◌, refl, true, some, [], codes, look_up, ◌>>=◌, differ, same_text}
use tarsx.Registry.{add_servant}
use tarsx.Application.{ServerConfig, Started, extra_main, servants_of}
use tarsx.Application.Wiring.{extra_main_lem}

abbrev hello : ServerConfig
hello = record {
  adapter_name = codes "HelloAdapter";
  servant_name = codes "Hello";
  adapter_ip = codes "127.0.0.1";
  adapter_port = 9877;
  adapter_name1 = [];
  servant_name1 = [];
  adapter_ip1 = [];
  adapter_port1 = 0;
}

extra_main_lem_example :
    (s : Started) × (extra_main (add_servant (codes "HelloAdapter") 8 true) 9 (λ i. i + 5) hello
      ≡ some s)
    × ((do f ← servants_of (codes "HelloAdapter") s; look_up (codes "HelloAdapter") f) ≡ some 8)
    × ((do f ← servants_of (codes "AdminAdapter") s; look_up (codes "AdminAdapter") f) ≡ some 0)
unfolding same_text
extra_main_lem_example =
    extra_main_lem 8 9 (λ i. i + 5) hello refl
      (differ (codes "HelloAdapter") (codes "AdminAdapter") refl)
      (differ (codes "HelloAdapter") (codes "AdminObj") refl)
      (differ (codes "HelloAdapter") (codes "Hello") refl)
