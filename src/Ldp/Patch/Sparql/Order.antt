-- ===== src/Ldp/Patch/Sparql/Order.antt =====
-- src/ldp/patch.rs: the order of the operations of a SPARQL Update.
use mathlib.Core.Option
use solid_server_rs.Prelude.{◌∷◌, ◌++◌, Str, codes}

-- an operation with its group
abbrev pub insert_data : Str → Str → Str
insert_data g rest = codes "INSERT DATA {" ++ (g ++ b'}' ∷ rest)

abbrev pub delete_data : Str → Str → Str
delete_data g rest = codes "DELETE DATA {" ++ (g ++ b'}' ∷ rest)
