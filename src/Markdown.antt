-- ===== src/Markdown.antt =====
-- pageindex/page_index_md.py: from the text of a Markdown file to the tree of its sections.
-- A text is the list of its code points. `count_tokens`, which asks a tokenizer, is an argument.
pub mod Patterns
pub mod Headings
pub mod HeadingLines
pub mod Sections
pub mod SectionLines
pub mod Tokens
pub mod Thinning
pub mod Ink
pub mod Covered
pub mod Build
pub mod Outline
pub mod Labels
pub mod Pipeline
pub mod Whole
mod Examples
