-- ===== src/Files.antt =====
-- The file system, as far as the program reads it (`open_blocklist` of src/config.rs, the lines that
-- `stream_chunks` reads, `read_to_string`, and the parts of a path): a parameter of the model.
use nftblock.Prelude.{Bool, Option, List}
use nftblock.Prelude.Results.{Result}
use nftblock.Text.{Text}

pub record FileLib : Type 1 where
  pub FilePath : Type 0
  pub OpenError : Type 0
  pub IoError : Type 0
  -- What the file has when it is opened: each line, or the error of reading it.
  pub open_blocklist : FilePath → Result OpenError (List (Result IoError Text))
  pub read_to_string : FilePath → Result OpenError Text
  pub is_absolute : FilePath → Bool
  pub is_empty_path : FilePath → Bool
  pub same_path : FilePath → FilePath → Bool
  pub parent : FilePath → Option FilePath
  pub file_name : FilePath → Option Text
