-- ===== src/Tests/Cdc.antt =====
-- Change data capture at small schemas, with LIKE as SQLite documents it: a percent sign stands for any
-- text, an underscore for any character, and letters match in either case.
use Prim.Native.Char.{code}
use Prim.Native.String.{[] as empty, ◌∷◌ as ◌:+◌, ◌++◌}
use text.Mathlib.TextLemmas.{cons-append, nil-append}
use marmot.Base.{
  ℕ, ◌+◌, String, ◌≡◌, ◌≢◌, refl, arith, Bool, true, false, ◌&&◌, ◌||◌, not, List, [], ◌∷◌, nat_beq,
  leb, All, if◌then◌else◌, string_key,
}
use marmot.Base.Maps.{lookup, insert}
use marmot.Base.Spaces.{trim_space}
use marmot.Db.Store.{meta_table}
use marmot.Base.Errors.{ok}
use marmot.Base.Act.Keeps.{Keeps}
use marmot.Db.Event.{ColumnInfo, nil}
use marmot.Db.Catalog.{SchemaItem, PragmaRow, Catalog, table, call, next_row}
use marmot.Db.Tables.{get_table_info, marmot_prefix, rowid_column, scanned}
use marmot.Db.Tables.HasKey.{any_key, get_table_info-any_key}
use marmot.Db.Cdc.{StreamDb, install_cdc, remove_cdc, is_marmot_trigger}
use marmot.Db.Cdc.Kept.{users}
use marmot.Db.Cdc.Installed.{users_of, cdc-Keeps}
use marmot.Db.Backup.{Files, items_at, backup_to}
use marmot.Db.Backup.Cleaned.{IsClean, backup_to-IsClean}
use marmot.Cfg.{default_config}
use marmot.Start.{Flags, Parts, returned, start}
use marmot.Start.CleanUp.{start_cleans_up}
use marmot.Db.Cdc.Removed.{TablesGone, TablesOwnThemselves, remove_cdc-removes}

abbrev lower : ℕ → ℕ
lower c = if leb 65 c && leb c 90 then c + 32 else c

like_any : (String → Bool) → String → Bool
like_any rest empty = rest ""
like_any rest (c :+ s) = let later = like_any rest s in if rest (c :+ s) then true else later

like : String → String → Bool
unfolding like_any
like empty empty = true
like empty (c :+ s) = false
like (p :+ pattern) empty = if nat_beq (code p) 37 then like pattern "" else false
like (p :+ pattern) (c :+ s) =
    let rest = like pattern in
    if nat_beq (code p) 37
    then like_any rest (c :+ s)
    else if nat_beq (code p) 95 || nat_beq (lower (code p)) (lower (code c))
    then rest s
    else false

like_any-nothing : (s : String) → like_any (like "") s ≡ true
unfolding like_any like
like_any-nothing empty = refl
like_any-nothing (c :+ s) = like_any-nothing s

like-all : (s : String) → like "%" s ≡ true
unfolding like
like-all empty = refl
like-all (c :+ s) = like_any-nothing (c :+ s)

no_percent : String → Bool
no_percent empty = true
no_percent (c :+ s) = not (nat_beq (code c) 37) && no_percent s

like-append : (p s : String) → no_percent p ≡ true → like (p ++ "%") (p ++ s) ≡ true
unfolding like no_percent
like-append empty s h = rw (nil-append "%", nil-append s) (like-all s)
like-append (c :+ p) s h =
    rw (cons-append c p "%", cons-append c p s) (ground (arith, h, like-append p s))

like-prefix : (s : String) → like (marmot_prefix ++ "%") (marmot_prefix ++ s) ≡ true
unfolding no_percent
like-prefix s = like-append marmot_prefix s refl

-- An underscore of the prefix matches any character, so a table of the user may be matched too.
like-user_table : like (marmot_prefix ++ "%") "a_marmot_db" ≡ true
unfolding like like_any
like-user_table = refl

abbrev users_table : SchemaItem
users_table = record { type = table; name = "users"; owner = "users" }

abbrev pragma_row : String → ℕ → PragmaRow
pragma_row name key = record {
  name = name;
  type = "TEXT";
  not_null = false;
  default_value = nil;
  primary_key_index = key;
}

abbrev catalog : Catalog
catalog = record {
  items = users_table ∷ [];
  columns = ("users", pragma_row "name" 0 ∷ pragma_row "email" 0 ∷ []) ∷ [];
  faults = [];
}

abbrev db : StreamDb
db = record { catalog = catalog; watch_tables_schema = [] }

abbrev installed : Catalog
installed = (install_cdc marmot_prefix ("users" ∷ []) db).1.catalog

installed-own : TablesOwnThemselves installed.items
unfolding install_cdc call lookup insert get_table_info trim_space meta_table next_row
installed-own = (
  (λ e. cc),
  ((λ e. cc), ((λ e. cc), ((λ e. cc), ((λ _. refl), ((λ _. refl), ((λ _. refl), tt)))))),
)

cdc-Keeps_example :
    Keeps (users_of like marmot_prefix like-prefix) (install_cdc marmot_prefix ("users" ∷ []))
    × Keeps (users like marmot_prefix) (remove_cdc like marmot_prefix true)
cdc-Keeps_example = cdc-Keeps like marmot_prefix like-prefix ("users" ∷ []) true

abbrev files : Files
files = record { schemas = ("/data/marmot.db", installed.items) ∷ []; faults = [] }

remove_cdc-removes_example :
    (d : Catalog) × (remove_cdc like marmot_prefix true installed ≡ (ok tt, d))
    × All (λ i. is_marmot_trigger like marmot_prefix i ≡ false) d.items
    × TablesGone like marmot_prefix true d.items
unfolding install_cdc call lookup insert get_table_info trim_space meta_table next_row
remove_cdc-removes_example = remove_cdc-removes like marmot_prefix true installed refl installed-own

-- The program with the flag -cleanup, on the database where the triggers are.
abbrev parts : Parts Catalog
parts = record {
  initialize_telemetry = λ s. s;
  open_stream_db = λ s. (ok tt, s);
  remove_cdc = remove_cdc like marmot_prefix;
  new_snapshot_storage = λ s. (ok tt, s);
  new_replicator = λ s. (ok tt, s);
  force_save_snapshot = λ s. s;
  restore_snapshot = λ s. (ok tt, s);
  get_all_db_tables = λ s. (ok [], s);
  install_cdc = λ tables s. (ok tt, s);
  change_listener = λ shard s. s;
}

abbrev cleaning : Flags
cleaning = record { cleanup = true; save_snapshot = false }

start_cleans_up_example :
    (d : Catalog) × (start parts cleaning (ok (default_config "/tmp")) 0 installed ≡ returned d)
    × All (λ i. is_marmot_trigger like marmot_prefix i ≡ false) d.items
    × TablesGone like marmot_prefix true d.items
unfolding install_cdc call lookup insert get_table_info trim_space meta_table next_row
start_cleans_up_example =
    start_cleans_up like marmot_prefix parts cleaning (default_config "/tmp") 0 installed installed
      refl refl refl refl installed-own

-- The columns of a table without a key, as they are read.
abbrev read_columns : List ColumnInfo
read_columns = scanned (pragma_row "name" 0) ∷ scanned (pragma_row "email" 0) ∷ rowid_column ∷ []

get_table_info-any_key_example : any_key read_columns ≡ true
unfolding get_table_info call lookup next_row
get_table_info-any_key_example = get_table_info-any_key "users" read_columns catalog catalog refl

backup_to-IsClean_example :
    (g : Files) × (backup_to like marmot_prefix "/data/marmot.db" "/tmp/snapshot.db" files
      ≡ (ok tt, g))
    × IsClean like marmot_prefix
        (items_at "/data/marmot.db" files.schemas)
        (items_at "/tmp/snapshot.db" g.schemas)
    × ((path : String)
        → path ≢ "/tmp/snapshot.db"
        → lookup path g.schemas ≡ lookup path files.schemas)
unfolding lookup
backup_to-IsClean_example =
    backup_to-IsClean like marmot_prefix "/data/marmot.db" "/tmp/snapshot.db" files refl
      installed-own
