-- ===== src/Storage/WebDav.antt =====
-- snapshot/webdav_storage.go: a storage on a WebDAV server. The client library is a parameter; its errors
-- may carry a status.
pub mod Laws
use Prim.Native.String.{◌++◌}
use text.Mathlib.Text.{◌==◌}
use marmot.Base.{
  ℕ, String, Bool, true, false, ◌||◌, not, Option, none, some, List, [], ◌∷◌, nat_beq, keep_if,
  if◌then◌else◌,
}
use marmot.Base.Decimal.{decimal}
use marmot.Base.Errors.{
  Error, Result, ok, err, panic, sentinel, no_snapshot_found, required_parameter_missing,
}
use marmot.Base.Act.{Act, pure, throw, catch, ◌>>=◌, ◌>>◌}
use marmot.Base.Paths.{join}
use marmot.Disk.{Bytes, open_file, read_all, create, write_all}
use marmot.Storage.{Host, Storage, on_disk, on_remote, is_status}

-- `gowebdav.Client`; `status` is the status of an error that is a `PathError` around a `StatusError`.
pub record Client (R : Type 0) : Type 0 where
  pub mkdir_all : String → Act R (Unit {0})
  pub write_stream : String → Bytes → Act R (Unit {0})
  pub rename : String → String → Bool → Act R (Unit {0})
  pub read_stream : String → Act R Bytes
  pub status : Error → Option ℕ

pub record WebDavStorage (R : Type 0) : Type 0 where
  pub client : Client R
  pub path : String

module _ {R : Type 0} (s : WebDavStorage R) where
  open s use {client}

  exists_already : Error → Act R (Unit {0})
  exists_already e = if is_status 409 (client.status e) then pure tt else throw e

  make_storage_path : Act R (Unit {0})
  unfolding exists_already
  make_storage_path = catch (client.mkdir_all s.path) exists_already

  -- A node writes to a name of its own first; `now` is the time in milliseconds.
  abbrev pub temp_name : String → ℕ → String → String
  temp_name node_name now name = node_name ++ ("-" ++ (decimal now ++ ("-temp-" ++ name)))

  unfoldable pub upload : String → ℕ → String → String → Act (Host R) (Unit {0})
  unfolding make_storage_path
  upload node_name now name path =
      let node_path = temp_name node_name now name in
      on_disk (open_file path)
      >> on_remote make_storage_path
      >> (on_disk (read_all path) >>= λ b. on_remote (client.write_stream node_path b))
      >> on_remote (client.rename node_path (join ("/" ∷ s.path ∷ name ∷ [])) true)

  missing : Error → Act (Host R) Bytes
  missing e =
      if is_status 404 (client.status e) then throw (sentinel no_snapshot_found) else throw e

  unfoldable pub download : String → String → Act (Host R) (Unit {0})
  unfolding missing
  download path name =
      catch (on_remote (client.read_stream (join (s.path ∷ name ∷ [])))) missing >>= λ b.
      on_disk (create path) >> on_disk (write_all path b)

  abbrev pub web_dav_storage : String → ℕ → Storage R
  web_dav_storage node_name now = record { upload = upload node_name now; download = download }

-- The parameters of an address, `url.Values`, in order.
abbrev pub Values : Type 0
Values = List (String × String)

unfoldable pub value_of : String → Values → String
value_of key [] = ""
value_of key ((k, v) ∷ values) = if k == key then v else value_of key values

unfoldable pub without : String → Values → Values
without key [] = []
without key ((k, v) ∷ values) = if k == key then without key values else (k, v) ∷ without key values

connected : {R : Type 0} → String → Result (Client R) → Result (WebDavStorage R)
connected dir (ok client) = ok (record { client = client; path = dir })
connected dir (err e) = err e
connected dir (panic m) = panic m

-- `newWebDAVStorage` with the parameters of the address, or the error of `url.Parse`; `connect` makes
-- a client for the address with the parameters given, and connects.
unfoldable pub new_web_dav_storage :
    {R : Type 0}
    → Result Values
    → (Values → String → String → Result (Client R))
    → Result (WebDavStorage R)
unfolding connected
new_web_dav_storage (err e) connect = err e
new_web_dav_storage (panic m) connect = panic m
new_web_dav_storage (ok values) connect =
    let dir = value_of "dir" values in
    let login = value_of "login" values in
    let secret = value_of "secret" values in
    if login == "" || secret == ""
    then err (sentinel required_parameter_missing)
    else connected (if dir == "" then "/" else dir)
        (connect (without "secret" (without "login" (without "dir" values))) login secret)
