-- ===== src/FileParser.antt =====
-- app/rag/file_parser/file_parser.py: `parse_files_result`, which splits requests into batches of
-- compatible files and gives each file a document or an error. This file: the requests and their
-- groups. The MinerU client answers through `Client`; a file id is known by a number, and paths are
-- split by `Paths`.
pub mod Batches
pub mod Groups
pub mod Settled
pub mod Blocks
pub mod Sources
use Prim.Native.String
use paper_collector_agent.Prelude.{
  ℕ, zero, suc, String, Bool, true, false, not, ◌&&◌, Option, none, some, List, [], ◌∷◌, ◌++◌, map,
  ◌==◌, ◌=s◌, if◌then◌else◌, any, find_first, length, take, drop, is_empty, strip, Result, ok, err,
  ◌>>=◌, traverse,
}

pub data FileType : Type 0 where
  pdf doc docx ppt pptx xls xlsx png jpg jpeg jp2 webp gif bmp html : FileType

pub record FileParseOptions : Type 0 where
  pub language : String
  pub is_ocr : Bool
  pub enable_formula : Bool
  pub enable_table : Bool
  pub page_ranges : Option String
  pub extra_formats : List String
  pub no_cache : Bool
  pub cache_tolerance : ℕ

pub record FileParseRequest : Type 0 where
  pub file_id : ℕ
  pub uri : String
  pub file_name : Option String
  pub file_type : Option FileType
  pub options : FileParseOptions

-- A request after `_normalize_request`.
pub record NormalRequest : Type 0 where
  pub file_id : ℕ
  pub uri : String
  pub file_name : String
  pub file_type : FileType
  pub options : FileParseOptions

-- `PurePosixPath(urlparse(uri).path).name`, and the suffix of a name in small letters.
pub record Paths : Type 0 where
  pub name_of : String → String
  pub suffix_of : String → String

pub data ParseError : Type 0 where
  no_file_name ids_not_unique : ParseError
  unsupported : String → ParseError

-- An exception, by its class, its text and its representation.
pub record Failure : Type 0 where
  pub class_name : String
  pub message : String
  pub shown : String

-- A result of MinerU.
pub record MineruResult : Type 0 where
  pub data_id : Option ℕ
  pub is_failed : Bool
  pub err_msg : Option String
  pub full_zip_url : String

-- The content of a result archive.
pub record Archive : Type 0 where
  pub markdown : String
  pub has_blocks : Bool

pub record Client : Type 0 where
  pub parse_url : NormalRequest → Result Failure MineruResult
  pub parse_urls : List NormalRequest → Result Failure (List MineruResult)
  pub read_archive : NormalRequest → String → Result Failure Archive

-- The names of the file types.
abbrev pub names : List (String × FileType)
names =
    ("pdf", FileType.pdf)
    ∷ ("doc", FileType.doc)
    ∷ ("docx", FileType.docx)
    ∷ ("ppt", FileType.ppt)
    ∷ ("pptx", FileType.pptx)
    ∷ ("xls", FileType.xls)
    ∷ ("xlsx", FileType.xlsx)
    ∷ ("png", FileType.png)
    ∷ ("jpg", FileType.jpg)
    ∷ ("jpeg", FileType.jpeg)
    ∷ ("jp2", FileType.jp2)
    ∷ ("webp", FileType.webp)
    ∷ ("gif", FileType.gif)
    ∷ ("bmp", FileType.bmp)
    ∷ ("html", FileType.html)
    ∷ []

abbrev pub type_of : Option (String × FileType) → String → Result ParseError FileType
type_of none suffix = err (unsupported suffix)
type_of (some entry) suffix = ok entry.1

-- `removeprefix(".")`
abbrev pub without_dot : String → String
without_dot String.[] = String.[]
without_dot (String.◌∷◌ c s) = if String.◌∷◌ c String.[] =s "." then s else String.◌∷◌ c s

-- `_detect_file_type`
unfoldable pub detect_file_type : Paths → String → Result ParseError FileType
detect_file_type paths file_name =
    let suffix = paths.suffix_of file_name in
    type_of (find_first (λ entry. entry.0 =s without_dot suffix) names)
      (if is_empty suffix then file_name else suffix)

-- `_filename_from_uri`
unfoldable pub filename_from_uri : Paths → String → Result ParseError String
filename_from_uri paths uri =
    let name = paths.name_of uri in if is_empty name then err no_file_name else ok name

unfoldable pub name_or : Option String → Result ParseError String → Result ParseError String
name_or none fallback = fallback
name_or (some name) fallback = if is_empty name then fallback else ok name

unfoldable pub type_or : Option FileType → Result ParseError FileType → Result ParseError FileType
type_or none fallback = fallback
type_or (some kind) fallback = ok kind

-- `_normalize_request`
unfoldable pub normalize_request : Paths → FileParseRequest → Result ParseError NormalRequest
unfolding name_or type_or filename_from_uri detect_file_type
normalize_request paths r = name_or r.file_name (filename_from_uri paths r.uri) >>= λ file_name.
    type_or r.file_type (detect_file_type paths file_name) >>= λ file_type. ok record {
      file_id = r.file_id;
      uri = r.uri;
      file_name = file_name;
      file_type = file_type;
      options = r.options;
    }

-- `_select_model`; every other type is in `GENERAL_FILE_TYPES`.
unfoldable pub select_model : FileType → String
select_model FileType.html = "MinerU-HTML"
select_model _ = "vlm"

pub record GroupKey : Type 0 where
  pub model : String
  pub language : String
  pub enable_formula : Bool
  pub enable_table : Bool
  pub extra_formats : List String
  pub no_cache : Bool
  pub cache_tolerance : ℕ

unfoldable pub key_of : NormalRequest → GroupKey
unfolding select_model
key_of r = record {
  model = select_model r.file_type;
  language = r.options.language;
  enable_formula = r.options.enable_formula;
  enable_table = r.options.enable_table;
  extra_formats = r.options.extra_formats;
  no_cache = r.options.no_cache;
  cache_tolerance = r.options.cache_tolerance;
}

abbrev pub same_bool : Bool → Bool → Bool
same_bool true b = b
same_bool false b = not b

abbrev pub same_texts : List String → List String → Bool
same_texts [] [] = true
same_texts (s ∷ ss) (t ∷ ts) = (s =s t) && same_texts ss ts
same_texts _ _ = false

unfoldable pub same_key : GroupKey → GroupKey → Bool
same_key a b =
    (a.model =s b.model)
    && (a.language =s b.language)
    && same_bool a.enable_formula b.enable_formula
    && same_bool a.enable_table b.enable_table
    && same_texts a.extra_formats b.extra_formats
    && same_bool a.no_cache b.no_cache
    && a.cache_tolerance == b.cache_tolerance

-- `groups[key].append(request)`
unfoldable pub add_to_group :
    NormalRequest → List (GroupKey × List NormalRequest) → List (GroupKey × List NormalRequest)
unfolding key_of same_key
add_to_group r [] = (key_of r, r ∷ []) ∷ []
add_to_group r ((key, group) ∷ groups) =
    let rest = add_to_group r groups in
    if same_key key (key_of r) then (key, group ++ r ∷ []) ∷ groups else (key, group) ∷ rest

-- `_group_compatible_requests`
unfoldable pub group_requests :
    List NormalRequest → List (GroupKey × List NormalRequest) → List (GroupKey × List NormalRequest)
unfolding add_to_group
group_requests [] groups = groups
group_requests (r ∷ rs) groups = group_requests rs (add_to_group r groups)

-- `_chunked`, on fuel: as many chunks as there are items are enough.
unfoldable pub chunked : ℕ → ℕ → List NormalRequest → List (List NormalRequest)
chunked fuel size [] = []
chunked zero size (r ∷ rs) = []
chunked (suc fuel) size (r ∷ rs) =
    let rest = chunked fuel size (drop size (r ∷ rs)) in take size (r ∷ rs) ∷ rest

unfoldable pub batches_of : ℕ → List (GroupKey × List NormalRequest) → List (List NormalRequest)
unfolding chunked
batches_of size [] = []
batches_of size ((key, group) ∷ groups) =
    chunked (length group) size group ++ batches_of size groups
