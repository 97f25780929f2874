-- ===== src/FileParser/Blocks.antt =====
-- app/rag/file_parser/file_parser.py: `_build_pdf_source_blocks`, `_content_item_to_markdown` and their
-- helpers, on the JSON values of a content list.
use Prim.Native.String
use paper_collector_agent.Prelude.{
  ℕ, zero, suc, ◌+◌, String, true, false, not, ◌&&◌, ◌||◌, Option, none, some, List, [], ◌∷◌, ◌=s◌,
  if◌then◌else◌, any, ltb, min, is_empty, strip,
}
use paper_collector_agent.Json.{Json, Items, Fields, bool, num, str, arr, nil, cons, get, truthy}
use paper_collector_agent.Processor.{lower}

pub record PdfSourceBlock : Type 0 where
  pub markdown : String
  pub page_no : ℕ
  pub bbox : Option Items
  pub block_type : String
  pub source_index : ℕ

-- `PDF_CONTENT_BLOCK_TYPES`
abbrev pub block_types : List String
block_types =
    "text" ∷ "title" ∷ "equation" ∷ "table" ∷ "image" ∷ "chart" ∷ "code" ∷ "algorithm" ∷ "list"
    ∷ "index" ∷ []

-- `a or b` of two values that may be absent.
abbrev pub value_or : Option Json → Option Json → Option Json
value_or none b = b
value_or (some v) b = if truthy v then some v else b

-- `isinstance(value, int)` and its value; `True` and `False` are numbers, and a negative one is none here.
abbrev pub natural : Option Json → Option ℕ
natural (some (num n)) = some n
natural (some (bool true)) = some 1
natural (some (bool false)) = some 0
natural _ = none

-- Two texts with a separator, if both are there.
unfoldable pub join_with : String → String → String → String
join_with separator a b =
    if is_empty a then b else if is_empty b then a else String.◌++◌ a (String.◌++◌ separator b)

-- The texts of a list, stripped and joined by line ends.
unfoldable pub text_lines : Items → String
unfolding strip join_with
text_lines nil = String.[]
text_lines (cons (str s) items) = join_with "\n" (strip s) (text_lines items)
text_lines (cons _ items) = text_lines items

-- `_text_value`
unfoldable pub text_value : Option Json → String
unfolding text_lines strip
text_value (some (str s)) = strip s
text_value (some (arr items)) = text_lines items
text_value _ = String.[]

-- `_join_text_values`
unfoldable pub join_text_values : List (Option Json) → String
unfolding text_value join_with
join_text_values [] = String.[]
join_text_values (value ∷ values) = join_with "\n\n" (text_value value) (join_text_values values)

-- `"\n".join(f"- {value}" …)`
unfoldable pub bullet_lines : Items → String
unfolding strip join_with
bullet_lines nil = String.[]
bullet_lines (cons (str s) items) =
    let rest = bullet_lines items in
    if is_empty (strip s) then rest else join_with "\n" (String.◌++◌ "- " s) rest
bullet_lines (cons _ items) = bullet_lines items

abbrev pub hashes : ℕ → String
hashes zero = String.[]
hashes (suc n) = String.◌++◌ "#" (hashes n)

-- A text of a heading level.
unfoldable pub heading : Option ℕ → String → String
heading none text = text
heading (some level) text =
    if not (is_empty text) && ltb 0 level
    then String.◌++◌ (hashes (min level 4)) (String.◌++◌ " " text)
    else text

unfoldable pub fenced : String → String
fenced body = if is_empty body then body else String.◌++◌ "```\n" (String.◌++◌ body "\n```")

unfoldable pub list_text : Option Json → Fields → String
unfolding bullet_lines text_value get
list_text (some (arr items)) item = bullet_lines items
list_text _ item = text_value (value_or (get "text" item) (get "content" item))

-- `_content_item_to_markdown`
unfoldable pub content_item_to_markdown : Fields → String → String
unfolding text_value heading join_text_values fenced list_text get
content_item_to_markdown item block_type =
    let text = text_value (value_or (get "text" item) (get "content" item)) in
    if (block_type =s "text") || (block_type =s "title")
    then heading (natural (get "text_level" item)) text
    else if block_type =s "equation"
    then text
    else if (block_type =s "table") || (block_type =s "image") || (block_type =s "chart")
    then join_text_values (
        get (String.◌++◌ block_type "_caption") item
        ∷ get "content" item
        ∷ get "table_body" item
        ∷ get (String.◌++◌ block_type "_footnote") item
        ∷ [])
    else if (block_type =s "code") || (block_type =s "algorithm")
    then join_text_values
        (get "code_caption" item ∷ some (str (fenced (text_value (get "code_body" item)))) ∷ [])
    else if (block_type =s "list") || (block_type =s "index")
    then list_text (get "list_items" item) item
    else String.[]

-- `str(item.get("type") or "").lower()`; the text of a value that is no text is no block type.
unfoldable pub type_text : Option Json → String
unfolding lower
type_text (some (str s)) = lower s
type_text _ = String.[]

abbrev pub bbox_of : Option Json → Option Items
bbox_of (some (arr items)) = some items
bbox_of _ = none

unfoldable pub add_block :
    Option ℕ → String → String → ℕ → Fields → List PdfSourceBlock → List PdfSourceBlock
unfolding get
add_block none block_type markdown index item rest = rest
add_block (some page_idx) block_type markdown index item rest =
    if any (λ name. name =s block_type) block_types && not (is_empty markdown)
    then record {
      markdown = markdown;
      page_no = page_idx + 1;
      bbox = bbox_of (get "bbox" item);
      block_type = block_type;
      source_index = index;
    }
      ∷ rest
    else rest

-- The loop of `_build_pdf_source_blocks`, from an index on.
unfoldable pub blocks_from : ℕ → List Fields → List PdfSourceBlock
unfolding add_block content_item_to_markdown type_text get
blocks_from index [] = []
blocks_from index (item ∷ items) =
    let block_type = type_text (get "type" item) in
    add_block (natural (get "page_idx" item)) block_type (content_item_to_markdown item block_type)
      index item (blocks_from (suc index) items)

-- `_build_pdf_source_blocks`
unfoldable pub build_pdf_source_blocks : List Fields → List PdfSourceBlock
unfolding blocks_from
build_pdf_source_blocks content_list = blocks_from 0 content_list
