-- ===== src/Tests/Files.antt =====
-- The theorems about the files of hahomematic/caches/persistent.py with a concrete backend.
use hahomematic.Base.{◌≡◌, ◌≢◌, refl, true, none, [], list_eq, nat_eq}
use hahomematic.Base.Text.{Text, codes}
use hahomematic.PersistentCache.{
  Backend, IsFaithful, Cache, init, data_changed, save, load, clear, no_save, load-save, save-clear,
}

abbrev texts : Backend Text
texts = record { hash = λ d. d; dumps = λ d. d; loads = λ d. d; nothing = [] }

texts-IsFaithful : IsFaithful texts
texts-IsFaithful d = refl

abbrev filled : Cache Text
filled = record { persistant_cache = codes "data"; last_hash_saved = []; file = none }

filled_changed : data_changed texts filled ≡ true
unfolding data_changed
filled_changed = refl

data_hash : codes "data" ≢ []
data_hash e = cc (e)

load-save_example :
    (load texts true (init texts (save texts true true filled).0.file)).0.persistant_cache
    ≡ codes "data"
load-save_example = load-save texts filled texts-IsFaithful filled_changed data_hash

save-clear_example :
    let cleared = clear texts (save texts true true filled).0 in
    let again : Cache Text = record cleared { persistant_cache = codes "data" } in
    ((save texts true true again).1 ≡ no_save) × ((save texts true true again).0.file ≡ none)
save-clear_example = save-clear texts filled
