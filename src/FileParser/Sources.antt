-- ===== src/FileParser/Sources.antt =====
-- The blocks of a document and the items of the content list that they come from.
use paper_collector_agent.Prelude.{
  ℕ, suc, ◌+◌, ◌≤◌, ◌≡◌, refl, ap, Bool, true, false, not, ◌&&◌, Option, none, some, List, [], ◌∷◌,
  arith, inl, inr, Bool-cases, &&-split, ◌=s◌, ◌==◌, if◌then◌else◌, any, is_empty, All, All-map,
  map,
}
use paper_collector_agent.Json.{Fields, get}
use paper_collector_agent.FileParser.Blocks.{
  PdfSourceBlock, block_types, natural, bbox_of, content_item_to_markdown, type_text, add_block,
  blocks_from, build_pdf_source_blocks,
}

-- The item at an index, when the first item stands at `first`.
abbrev pub item_at : ℕ → List Fields → ℕ → Option Fields
item_at first [] index = none
item_at first (item ∷ items) index =
    let later = item_at (suc first) items index in if index == first then some item else later

-- A block of one of the block types with text, all of whose fields are those of the item at its index;
-- its page is the one after the page index of the item.
pub record IsBlock (first : ℕ) (items : List Fields) (b : PdfSourceBlock) : Type 0 where
  pub item : Fields
  pub page_idx : ℕ
  pub from_first : first ≤ b.source_index
  pub of_item : item_at first items b.source_index ≡ some item
  pub of_type : b.block_type ≡ type_text (get "type" item)
  pub of_text : b.markdown ≡ content_item_to_markdown item b.block_type
  pub of_box : b.bbox ≡ bbox_of (get "bbox" item)
  pub has_page : natural (get "page_idx" item) ≡ some page_idx
  pub of_page : b.page_no ≡ page_idx + 1
  pub has_text : is_empty b.markdown ≡ false
  pub has_type : any (λ name. name =s b.block_type) block_types ≡ true

abbrev is_given : Option ℕ → Bool
is_given none = false
is_given (some n) = true

-- An item with a page, a known type and text.
abbrev is_source : Fields → Bool
is_source item =
    let block_type = type_text (get "type" item) in
    is_given (natural (get "page_idx" item))
    && (any (λ name. name =s block_type) block_types
        && not (is_empty (content_item_to_markdown item block_type)))

-- The indices of these items, in order.
abbrev pub source_indices : ℕ → List Fields → List ℕ
source_indices first [] = []
source_indices first (item ∷ items) =
    let later = source_indices (suc first) items in if is_source item then first ∷ later else later

abbrev AreBlocks : ℕ → List Fields → List PdfSourceBlock → Type 0
AreBlocks first items blocks =
    All (IsBlock first items) blocks
    × (map (λ b. b.source_index) blocks ≡ source_indices first items)

widen :
    (first : ℕ) (item : Fields) (items : List Fields) (blocks : List PdfSourceBlock)
    → All (IsBlock (suc first) items) blocks
    → All (IsBlock first (item ∷ items)) blocks
widen first item items blocks h =
    All-map (IsBlock (suc first) items) (IsBlock first (item ∷ items)) blocks
      (λ b x.
        let from_first = x.from_first in
        let after : (b.source_index == first) ≡ false = ground arith in
        record {
          item = x.item;
          page_idx = x.page_idx;
          from_first = omega arith;
          of_item = rw after x.of_item;
          of_type = x.of_type;
          of_text = x.of_text;
          of_box = x.of_box;
          has_page = x.has_page;
          of_page = x.of_page;
          has_text = x.has_text;
          has_type = x.has_type;
        })
      h

add_block-AreBlocks :
    (page : Option ℕ) (first : ℕ) (item : Fields) (items : List Fields) (rest : List PdfSourceBlock)
    → natural (get "page_idx" item) ≡ page
    → AreBlocks (suc first) items rest
    → let block_type = type_text (get "type" item) in
      AreBlocks first
        (item ∷ items)
        (add_block page block_type (content_item_to_markdown item block_type) first item rest)
unfolding add_block
add_block-AreBlocks none first item items rest e (h, k) = (widen first item items rest h, rw e k)
add_block-AreBlocks (some page) first item items rest e (h, k) =
    let block_type = type_text (get "type" item) in
    let markdown = content_item_to_markdown item block_type in
    let keep = any (λ name. name =s block_type) block_types && not (is_empty markdown) in
    elim (Bool-cases keep) [
      | inl t ↦
          let (known, full) =
            &&-split (any (λ name. name =s block_type) block_types) (not (is_empty markdown)) t in
          rw t (
            (
              record {
                item = item;
                page_idx = page;
                from_first = omega arith;
                of_item = ground arith;
                of_type = refl;
                of_text = refl;
                of_box = refl;
                has_page = e;
                of_page = refl;
                has_text = ground (arith, full);
                has_type = known;
              },
              widen first item items rest h,
            ),
            rw e (ap (λ l. first ∷ l) k),
          )
      | inr f ↦ rw f (widen first item items rest h, rw e k)
    ]

blocks_from-AreBlocks :
    (first : ℕ) (items : List Fields) → AreBlocks first items (blocks_from first items)
unfolding blocks_from
blocks_from-AreBlocks first [] = (tt, refl)
blocks_from-AreBlocks first (item ∷ items) =
    add_block-AreBlocks (natural (get "page_idx" item)) first item items
      (blocks_from (suc first) items) refl (blocks_from-AreBlocks (suc first) items)

-- The blocks of a document are those of the items of its content list that have a page, a block type
-- and text, one for each and in their order; all fields of a block are those of its item, and its page
-- number is one more than the page index of the item.
pub build_pdf_source_blocks_lem :
    (items : List Fields)
    → All (IsBlock 0 items) (build_pdf_source_blocks items)
      × (map (λ b. b.source_index) (build_pdf_source_blocks items) ≡ source_indices 0 items)
unfolding build_pdf_source_blocks
build_pdf_source_blocks_lem items = blocks_from-AreBlocks 0 items
