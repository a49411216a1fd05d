-- ===== src/Bids.antt =====
-- BidService, src/auction_app/services/bid_service.py.
pub mod Recording
pub mod Place
pub mod History
