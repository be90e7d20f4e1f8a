-- ===== src/Pdb/Imports/Runs.antt =====
-- A run on an Imports blob with one namespace, whose name is the empty blob.
use dnmd.Base.{◌+◌, ◌*◌, ◌≤◌, ◌≡◌, ◌↔◌, arith, refl}
use dnmd.Base.{[], ◌∷◌, some, true, ok}
use dnmd.Bytes.{Mdcdata}
use dnmd.Bytes.Check.{is_stream-IsStream}
use dnmd.Pdb.{mdbpr_success, Buffer}
use dnmd.Pdb.Imports.{zeroed, get_num_imports, md_parse_imports}
use dnmd.Pdb.Imports.Count.{IsImports, get_num_imports-IsImports}
use dnmd.Pdb.Imports.Entries.{Parses, md_parse_imports-Parses}
use dnmd.Samples.{context_of}

abbrev namespaces : Mdcdata
namespaces = record { ptr = 1 ∷ 0 ∷ []; size = 2 }

abbrev buffer : Buffer
buffer = record { given = true; len = 48 }

get_num_imports-IsImports_example : (get_num_imports namespaces ≡ ok 1) ↔ IsImports 1 namespaces
get_num_imports-IsImports_example =
    get_num_imports-IsImports namespaces 1 (is_stream-IsStream namespaces refl) (omega arith)
      (λ e. omega arith)

md_parse_imports-Parses_example :
    (md_parse_imports (some (context_of 0 [])) namespaces buffer ≡ mdbpr_success (zeroed 1 ∷ []))
    ↔ (Parses (context_of 0 []) (zeroed 1 ∷ []) namespaces × (true ≡ true) × (8 + 1 * 40 ≤ 48))
md_parse_imports-Parses_example =
    md_parse_imports-Parses (context_of 0 []) namespaces buffer (zeroed 1 ∷ [])
      (is_stream-IsStream namespaces refl) (omega arith)
