-- ===== src/Db/Secrets.antt =====
-- harness/db/_secrets.py and the class `SecretsStore` of harness/secrets_store.py on it. The cipher of the
-- package cryptography is a pair of functions; `decrypt` is none where it raises.
use testharness.Prelude.{
  ℕ, String, ◌=s=◌, Bool, ◌||◌, Option, none, some, List, [], ◌∷◌, ◌++◌, ◌==◌, if◌then◌else◌, map,
  select_one, update_where, delete_where, count_where, order_desc, order_by_name,
}
use testharness.Db.{Db, Secret, CaCert}

abbrev pub secret_is : String → Secret → Bool
secret_is name s = s.name =s= name

abbrev pub new_secret : String → ℕ → String → String → Option String → Option String → Secret
new_secret id now name encrypted_value description user_id = record {
  id = id;
  name = name;
  encrypted_value = encrypted_value;
  description = description;
  created_at = now;
  updated_at = now;
  updated_by = user_id;
}

-- ON CONFLICT(name) DO UPDATE; `id` is a new uuid.
unfoldable pub upsert_secret :
    String → ℕ → String → String → Option String → Option String → Db → Db
unfolding count_where update_where
upsert_secret id now name encrypted_value description user_id db =
    if count_where (secret_is name) db.secrets == 0
    then record db {
      secrets = db.secrets ++ new_secret id now name encrypted_value description user_id ∷ [];
    }
    else record db {
      secrets =
          update_where (secret_is name)
            (λ s. record s {
              encrypted_value = encrypted_value;
              description = description;
              updated_at = now;
              updated_by = user_id;
            })
            db.secrets;
    }

unfoldable pub get_secret : Db → String → Option Secret
unfolding select_one
get_secret db name = select_one (secret_is name) db.secrets

unfoldable pub delete_secret : String → Db → Db
unfolding delete_where
delete_secret name db = record db { secrets = delete_where (secret_is name) db.secrets }

-- The columns that are listed: all but `encrypted_value`.
pub record SecretInfo : Type 0 where
  pub id : String
  pub name : String
  pub description : Option String
  pub created_at : ℕ
  pub updated_at : ℕ
  pub updated_by : Option String

abbrev pub info_of : Secret → SecretInfo
info_of s = record {
  id = s.id;
  name = s.name;
  description = s.description;
  created_at = s.created_at;
  updated_at = s.updated_at;
  updated_by = s.updated_by;
}

unfoldable pub list_secrets : Db → List SecretInfo
unfolding order_by_name
list_secrets db = map info_of (order_by_name (λ s. s.name) db.secrets)

abbrev cert_has_id : String → CaCert → Bool
cert_has_id cert_id c = c.id =s= cert_id

-- `none` is the IntegrityError of a second row with one id or name.
unfoldable pub insert_ca_cert : CaCert → Db → Option Db
unfolding count_where
insert_ca_cert row db =
    if count_where (λ c. cert_has_id row.id c || c.name =s= row.name) db.ca_certs == 0
    then some (record db { ca_certs = db.ca_certs ++ row ∷ [] })
    else none

unfoldable pub list_ca_certs : Db → List CaCert
unfolding order_desc
list_ca_certs db = order_desc (λ c. c.created_at) db.ca_certs

unfoldable pub get_ca_cert : Db → String → Option CaCert
unfolding select_one
get_ca_cert db cert_id = select_one (cert_has_id cert_id) db.ca_certs

unfoldable pub delete_ca_cert : String → Db → Db
unfolding delete_where
delete_ca_cert cert_id db = record db { ca_certs = delete_where (cert_has_id cert_id) db.ca_certs }

-- Of `get` of the store: no secret, a value, or the exception of the cipher.
pub data Fetched : Type 0 where
  missing : Fetched
  value : String → Fetched
  undecipherable : Fetched

abbrev decrypted : Option String → Fetched
decrypted none = undecipherable
decrypted (some text) = value text

module _ (encrypt : String → String) (decrypt : String → Option String) where
  -- SecretsStore.set
  unfoldable pub set : String → ℕ → String → String → Option String → Option String → Db → Db
  unfolding upsert_secret
  set id now name text description user_id db =
      upsert_secret id now name (encrypt text) description user_id db

  abbrev fetched : Option Secret → Fetched
  fetched none = missing
  fetched (some row) = decrypted (decrypt row.encrypted_value)

  unfoldable pub get : Db → String → Fetched
  unfolding get_secret
  get db name = fetched (get_secret db name)

  abbrev pub with_value : String → Fetched → List (String × String) → List (String × String)
  with_value name (value text) rest = (name, text) ∷ rest
  with_value name _ rest = rest

  abbrev all_of : Db → List SecretInfo → List (String × String)
  all_of db [] = []
  all_of db (row ∷ rows) = with_value row.name (get db row.name) (all_of db rows)

  -- A secret that cannot be deciphered is left out.
  unfoldable pub get_all_decrypted : Db → List (String × String)
  unfolding list_secrets get
  get_all_decrypted db = all_of db (list_secrets db)
