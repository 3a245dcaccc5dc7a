-- ===== src/Text.antt =====
-- JavaScript strings as lists of UTF-16 code units, with the methods that the program calls on
-- strings that it takes apart. Strings that are only compared are native texts.
mod Defs
pub mod Laws
unfoldable pub use Defs.{
  Text, units, text_eq, is_space, is_digit, strip_start, trim, split_first, split_on,
  starts_in_space, collapse, trim_end, words_first, split_space, join, decimal_from, decimal,
  digit_unit, show_fuel, show_base, show,
}
