-- ===== src/PersistentCache.antt =====
-- `BasePersistentCache` of hahomematic/caches/persistent.py, over any data: `save`, `load` and
-- `clear`, with the file that the cache stands in. The digest, orjson and the directory are not part
-- of the repository: they are the fields of `Backend`.
use hahomematic.Base.{
  ◌≡◌, ◌≢◌, Bool, true, false, not, ◌||◌, ◌&&◌, Option, none, some, arith, Eq, ◌==◌, if◌then◌else◌,
}
use hahomematic.Base.Text.{Text}

-- `hash_sha256`, `orjson.dumps` and `orjson.loads` on the data of a cache.
pub record Backend (D : Type 0) : Type 0 where
  pub hash : D → Text
  pub dumps : D → Text
  pub loads : Text → D
  pub nothing : D

-- What orjson documents: reading what was written gives the data.
abbrev pub IsFaithful : {D : Type 0} → Backend D → Type 0
IsFaithful {D} b = (d : D) → b.loads (b.dumps d) ≡ d

-- The cache of one process, and the file on the disk.
pub record Cache (D : Type 0) : Type 0 where
  pub persistant_cache : D
  pub last_hash_saved : Text
  pub file : Option Text

pub data DataOperationResult : Type 0 where
  load_fail load_success save_fail save_success no_load no_save : DataOperationResult

module _ {D : Type 0} (b : Backend D) where
  -- `__init__` beside a file that may be there
  unfoldable pub init : Option Text → Cache D
  init file = record {
    persistant_cache = b.nothing;
    last_hash_saved = b.hash b.nothing;
    file = file;
  }

  module _ ⦃e : Eq Text⦄ where
    unfoldable pub data_changed : Cache D → Bool
    data_changed c = not (b.hash c.persistant_cache == c.last_hash_saved)

    -- `save`; the first two arguments are `check_or_create_directory` and `use_caches`.
    unfoldable pub save : Bool → Bool → Cache D → Cache D × DataOperationResult
    save directory use_caches c =
        if not directory || (not use_caches || b.hash c.persistant_cache == c.last_hash_saved)
        then (c, no_save)
        else (
          record c {
            last_hash_saved = b.hash c.persistant_cache;
            file = some (b.dumps c.persistant_cache);
          },
          save_success,
        )

    unfoldable pub load_file : Option Text → Cache D → Cache D × DataOperationResult
    load_file none c = (c, no_load)
    load_file (some content) c =
        if b.hash (b.loads content) == c.last_hash_saved then (c, no_load) else (
          record c {
            persistant_cache = b.loads content;
            last_hash_saved = b.hash (b.loads content);
          },
          load_success,
        )

    unfoldable pub load : Bool → Cache D → Cache D × DataOperationResult
    unfolding load_file
    load directory c = if directory then load_file c.file c else (c, no_load)

  -- The removal of the file; the hash that was last saved stays.
  unfoldable pub clear : Cache D → Cache D
  clear c = record c { persistant_cache = b.nothing; file = none }

  module _ ⦃e : Eq Text⦄ where
    -- A cache that was saved is read back by the next process, unless its digest is that of no
    -- data.
    pub load-save :
        (c : Cache D)
        → IsFaithful b
        → data_changed c ≡ true
        → b.hash c.persistant_cache ≢ b.hash b.nothing
        → (load true (init (save true true c).0.file)).0.persistant_cache ≡ c.persistant_cache
    unfolding save load init data_changed
    load-save c faithful changed some_data = ground (
      arith,
      faithful c.persistant_cache,
      e.test_iff (b.hash c.persistant_cache) (b.hash b.nothing),
      e.test_iff (b.hash (b.loads (b.dumps c.persistant_cache))) (b.hash b.nothing),
    )

    -- Saving writes the file exactly if the directory is there, caches are in use and the data has
    -- changed since the last save or load; then nothing is left to save.
    pub save_lem :
        (directory use_caches : Bool) (c : Cache D)
        → ((save directory use_caches c).1
            ≡ (if directory && (use_caches && data_changed c) then save_success else no_save))
          × ((save directory use_caches c).0.file ≡ (
              if directory && (use_caches && data_changed c)
              then some (b.dumps c.persistant_cache)
              else c.file))
          × (data_changed (save true true c).0 ≡ false)
    unfolding save data_changed
    save_lem directory use_caches c = (
      ground arith,
      ground arith,
      ground (arith, e.test_iff (b.hash c.persistant_cache) (b.hash c.persistant_cache)),
    )

    -- After a save and a clear, a cache that is filled with the same data again is not saved: no
    -- file is left behind.
    pub save-clear :
        (c : Cache D)
        → let cleared = clear (save true true c).0 in
          let again : Cache D = record cleared { persistant_cache = c.persistant_cache } in
          ((save true true again).1 ≡ no_save) × ((save true true again).0.file ≡ none)
    unfolding save clear
    save-clear c =
        ground (arith, e.test_iff (b.hash c.persistant_cache) (b.hash c.persistant_cache))
