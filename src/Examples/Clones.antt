-- ===== src/Examples/Clones.antt =====
-- Deep copies of a CloudflareTunnel in memory, and of a list of it.
use cloudflare_tunnel_operat.Base.{
  String, ◌≡◌, refl, true, false, Option, none, some, List, [], ◌∷◌, arith, get_elem?,
}
use cloudflare_tunnel_operat.Base.Int.{pos}
use cloudflare_tunnel_operat.Base.Dict.{lookup}
use cloudflare_tunnel_operat.Base.Exec.{ok, pure}
use cloudflare_tunnel_operat.Api.{str}
use cloudflare_tunnel_operat.Api.ApplyConfiguration.{Pointer}
use cloudflare_tunnel_operat.Api.DeepCopy.{Library, Foreign, Applied, new_tunnel, list_object}
use cloudflare_tunnel_operat.Api.DeepCopy.Structs.{
  Memory, Cell, SettingsStruct, SpecStruct, TunnelStruct, TypeMeta, a_string, a_tunnel, a_list,
  a_pdb, an_int_or_string, applied, tunnels, string_map,
}
use cloudflare_tunnel_operat.Api.DeepCopy.Copier.{Representation, anywhere}
use cloudflare_tunnel_operat.Api.DeepCopy.Parts.{At, Behind, Value, IsCopier-value}
use cloudflare_tunnel_operat.Api.DeepCopy.Resource.{SpecContent, TunnelContent, ListContent}
use cloudflare_tunnel_operat.Api.DeepCopy.Whole.{IsDeep, HoldsSpec, HoldsTunnel, HoldsList}
use cloudflare_tunnel_operat.Api.DeepCopy.Detached.{
  IsDetached, IsObject, new_tunnel-IsDetached, list_object-IsDetached,
}
use cloudflare_tunnel_operat.Examples.Copies.{codec, round_trip}

-- The structs of other packages are texts.
abbrev library : Library String
library = record { copy = λ k s. pure s; codec = λ k. codec }

abbrev Same : Foreign → Representation String String String
Same k = Value (◌≡◌)

abbrev AnyText : Applied → String → Type 0
AnyText k s = Unit {0}

deep : IsDeep library Same AnyText
deep = record {
  copies = λ k. IsCopier-value (λ s. s) (λ p v r. r);
  round_trip = λ k. record { back = λ a t. round_trip a };
}

abbrev settings : SettingsStruct
settings = record {
  name_override = "";
  catch_all_rule = "http_status:404";
  ca_pool = some 1;
  no_tls_verify = false;
  tls_timeout_seconds = pos 10;
  http2_origin = false;
  disable_chunked_encoding = false;
  connect_timeout_seconds = pos 30;
  no_happy_eyeballs = false;
  proxy_type = "";
  keep_alive_timeout_seconds = pos 90;
  keep_alive_connections = pos 100;
}

abbrev spec : SpecStruct String
spec = record {
  default = true;
  replicas = pos 1;
  resources = "none";
  image_pull_secrets = none;
  image = "";
  args_override = none;
  extra_env = some 0;
  node_selector = some 6;
  tolerations = none;
  topology_spread_constraints = none;
  affinity = some 3;
  enable_service_monitor = true;
  pod_disruption_budget = some 4;
  settings = settings;
  pod_security_context = none;
  security_context = none;
}

abbrev kind : TypeMeta
kind = record { kind = "CloudflareTunnel"; api_version = "v1beta1" }

abbrev tunnel : TunnelStruct String
tunnel = record {
  type_meta = kind;
  metadata = "web/tunnel";
  spec = spec;
  status = record { replicas = pos 1; tunnel_name = "tunnel"; tunnel_id = "t1"; conditions = none };
}

abbrev in_use : List (Cell String)
in_use =
    (a_tunnel tunnel)
    ∷ (a_string "/ca.pem")
    ∷ (applied "zone")
    ∷ (applied "near")
    ∷ (a_pdb (record { min_available = some 5; max_unavailable = none }))
    ∷ (an_int_or_string (str "50%"))
    ∷ (string_map (("disk", "ssd") ∷ []))
    ∷ (a_list (record { type_meta = kind; metadata = "1"; items = some 8 }))
    ∷ (tunnels (tunnel ∷ []))
    ∷ []

abbrev or_blank : Option (Cell String) → Cell String
or_blank none = a_string ""
or_blank (some c) = c

abbrev memory : Memory String
memory = record {
  cells = λ i. or_blank (get_elem? in_use i);
  next_cell = 9;
  arrays = λ i. some 2 ∷ none ∷ [];
  next_array = 1;
}

abbrev spec_content : SpecContent String String
spec_content = record {
  plain = (true, (pos 1, ("", true)));
  resources = "none";
  image_pull_secrets = none;
  args_override = none;
  extra_env = some (some "zone" ∷ none ∷ []);
  node_selector = some (λ k. lookup k (("disk", "ssd") ∷ []));
  tolerations = none;
  topology_spread_constraints = none;
  affinity = some "near";
  pod_disruption_budget =
      some (record { min_available = some (str "50%"); max_unavailable = none });
  settings = record { plain = record settings { ca_pool = none }; ca_pool = some "/ca.pem" };
  pod_security_context = none;
  security_context = none;
}

abbrev content : TunnelContent String String
content = record {
  type_meta = kind;
  metadata = "web/tunnel";
  spec = spec_content;
  status = record { plain = (pos 1, ("tunnel", "t1")); conditions = none };
}

abbrev list_content : ListContent String String
list_content = record { type_meta = kind; metadata = "1"; items = some (content ∷ []) }

holds_spec : HoldsSpec Same AnyText anywhere memory spec spec_content
holds_spec = record {
  plain = refl;
  resources = refl;
  image_pull_secrets = tt;
  args_override = tt;
  extra_env = record {
    after = omega arith;
    used = omega arith;
    elements = (
      record {
        after = omega arith;
        used = omega arith;
        struct = "zone";
        stored = refl;
        holds = (refl, tt);
      },
      (tt, tt),
    );
  };
  node_selector = record {
    after = omega arith;
    used = omega arith;
    struct = ("disk", "ssd") ∷ [];
    stored = refl;
    holds = λ k. refl;
  };
  tolerations = tt;
  topology_spread_constraints = tt;
  affinity = record {
    after = omega arith;
    used = omega arith;
    struct = "near";
    stored = refl;
    holds = (refl, tt);
  };
  pod_disruption_budget = record {
    after = omega arith;
    used = omega arith;
    struct = record { min_available = some 5; max_unavailable = none };
    stored = refl;
    holds = record {
      min_available = record {
        after = omega arith;
        used = omega arith;
        struct = str "50%";
        stored = refl;
        holds = refl;
      };
      max_unavailable = tt;
    };
  };
  settings = record {
    plain = refl;
    ca_pool = record {
      after = omega arith;
      used = omega arith;
      struct = "/ca.pem";
      stored = refl;
      holds = refl;
    };
  };
  pod_security_context = tt;
  security_context = tt;
}

holds_tunnel : HoldsTunnel Same AnyText anywhere memory tunnel content
holds_tunnel = record {
  type_meta = refl;
  metadata = refl;
  spec = holds_spec;
  status = record { plain = refl; conditions = tt };
}

tunnel-At : At a_tunnel (HoldsTunnel Same AnyText) anywhere memory 0 content
tunnel-At = record {
  after = omega arith;
  used = omega arith;
  struct = tunnel;
  stored = refl;
  holds = holds_tunnel;
}

list-At : At a_list (HoldsList Same AnyText) anywhere memory 7 list_content
list-At = record {
  after = omega arith;
  used = omega arith;
  struct = record { type_meta = kind; metadata = "1"; items = some 8 };
  stored = refl;
  holds = record {
    type_meta = refl;
    metadata = refl;
    items = record {
      after = omega arith;
      used = omega arith;
      struct = tunnel ∷ [];
      stored = refl;
      holds = (holds_tunnel, tt);
    };
  };
}

new_tunnel-IsDetached_example :
    (q : Pointer) × (m' : Memory String) × (new_tunnel library (some 0) memory ≡ (ok q, m'))
    × IsDetached
        (Behind (At a_tunnel (HoldsTunnel Same AnyText)))
        (some 0)
        q
        (some content)
        memory
        m'
new_tunnel-IsDetached_example = new_tunnel-IsDetached deep memory (some 0) (some content) tunnel-At

list_object-IsDetached_example :
    (q : Pointer) × (o : Option Pointer) × (m' : Memory String) × (list_object library
        (some 7)
        memory
      ≡ (ok o, m'))
    × IsObject q o
    × IsDetached
        (Behind (At a_list (HoldsList Same AnyText)))
        (some 7)
        q
        (some list_content)
        memory
        m'
list_object-IsDetached_example =
    list_object-IsDetached deep memory (some 7) (some list_content) list-At
