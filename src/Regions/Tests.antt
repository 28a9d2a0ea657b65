-- ===== src/Regions/Tests.antt =====
-- A region with two references more, on an allocator without free blocks.
use oscs25_labs.Base.{none}
use oscs25_labs.Pages.{Pages, page_reserved}

abbrev pages : Pages
pages = record {
  status = λ _. page_reserved;
  idx = λ i. i;
  links = record { prev = λ _. none; next = λ _. none };
  free_list = λ _. none;
}
